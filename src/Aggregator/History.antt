-- ===== src/Aggregator/History.antt =====
-- apps/plugins/aggregator/plugin/stats.go: the history of a statistic.
use debug_bootstrap.Prelude.{
  ℕ, zero, suc, ◌-◌, ◌*◌, ◌/◌, ◌≤◌, ◌<◌, true, false, not, ◌&&◌, Option, none, some, List, [], ◌∷◌,
  ◌++◌, ◌⊎◌, ◌≡◌, refl, ◌∙◌, length, drop, ltb, nat_beq, nat_equal, arith, All, length-drop, inl,
  inr, Bool-cases,
}
use debug_bootstrap.Prelude.Dict.{IsApart, lookup, lookup-insert}
use debug_bootstrap.Aggregator.{
  Floats, Sample, Samples, History, State, entries, newest, log, log_update, feed, feed_each,
}

module _ {F : Type 0} where
  -- The samples began one after the other, later than `low` and before `top`.
  abbrev pub Climbs : ℕ → List (Sample F) → ℕ → Type 0
  Climbs low [] top = Unit
  Climbs low (s ∷ his) top = (low < s.start) × (s.start < top) × Climbs s.start his top

  pub Climbs-weaken :
      (low low' top top' : ℕ) (his : List (Sample F))
      → low' ≤ low
      → top ≤ top'
      → Climbs low his top
      → Climbs low' his top'
  Climbs-weaken low low' top top' [] p q h = tt
  Climbs-weaken low low' top top' (s ∷ his) p q h = (
    omega (arith, h.0),
    omega (arith, h.1),
    Climbs-weaken s.start s.start top top' his (omega arith) q h.2,
  )

  Climbs-snoc :
      (low top : ℕ) (his : List (Sample F)) (s : Sample F)
      → Climbs low his s.start
      → low < s.start
      → s.start < top
      → Climbs low (his ++ s ∷ []) top
  Climbs-snoc low top [] s h p q = (p, q, tt)
  Climbs-snoc low top (r ∷ his) s h p q =
      (h.0, omega (arith, h.1), Climbs-snoc r.start top his s h.2 h.1 q)

  Climbs-drop :
      (n low top : ℕ) (his : List (Sample F)) → Climbs low his top → Climbs low (drop n his) top
  Climbs-drop zero low top his h = h
  Climbs-drop (suc n) low top [] h = tt
  Climbs-drop (suc n) low top (s ∷ his) h =
      Climbs-weaken s.start low top top (drop n his) (omega (arith, h.0)) (omega arith)
        (Climbs-drop n s.start top his h.2)

  -- At most five samples of the period are kept, all of them of a time, in the order of their
  -- beginnings, and before the sample that is being fed.
  abbrev pub IsKept : History F → ℕ × Sample F → Type 0
  IsKept history entry =
      let his = entries (lookup entry.0 history) in (length his ≤ 5) × Climbs 0 his entry.1.start

  -- Each period is measured once.
  abbrev pub IsState : State F → Type 0
  IsState s = IsApart s.current × All (IsKept s.history) s.current

  log-other :
      (d j : ℕ) (s : Sample F) (history : History F)
      → nat_beq d j ≡ false
      → lookup j (log d s history) ≡ lookup j history
  unfolding log
  log-other d j s history h = elim (Bool-cases (nat_beq s.start 0)) [
    | inl p ↦ rw (log, p) refl
    | inr p ↦
        rw (log, p, lookup-insert d j (newest (entries (lookup d history) ++ s ∷ [])) history, h)
          refl
  ]

  log-undefined :
      (d : ℕ) (s : Sample F) (history : History F) → s.start ≡ 0 → log d s history ≡ history
  unfolding log
  log-undefined d s history h = rw (log, h) refl

  log-lookup :
      (d : ℕ) (s : Sample F) (history : History F)
      → 0 < s.start
      → lookup d (log d s history) ≡ some (newest (entries (lookup d history) ++ s ∷ []))
  unfolding log
  log-lookup d s history h =
      let defined : nat_beq s.start 0 ≡ false = ground arith in
      let same : nat_beq d d ≡ true = ground arith in
      rw
        (
          log,
          defined,
          lookup-insert d d (newest (entries (lookup d history) ++ s ∷ [])) history,
          same,
        )
        refl

  newest-Climbs :
      (low top : ℕ) (his : List (Sample F))
      → Climbs low his top
      → (length (newest his) ≤ 5) × Climbs low (newest his) top
  unfolding newest
  newest-Climbs low top his h = elim (Bool-cases (ltb 5 (length his))) [
    | inl p ↦ rw p (
      omega (arith, length-drop (length his - 5) his),
      Climbs-drop (length his - 5) low top his h,
    )
    | inr p ↦ rw p (ground (arith, p), h)
  ]

  -- The sample that a new period closes is logged under the one that is fed from there on.
  log-IsKept :
      (d : ℕ) (s m : Sample F) (history : History F)
      → IsKept history (d, s)
      → s.start < m.start
      → IsKept (log d s history) (d, m)
  log-IsKept d s m history h p = elim (Bool-cases (nat_beq s.start 0)) [
    | inl z ↦ rw (log-undefined d s history (ground (arith, z))) (
      h.0,
      Climbs-weaken 0 0 s.start m.start (entries (lookup d history)) (omega arith) (omega arith)
          h.1,
    )
    | inr z ↦
        let start : 0 < s.start = ground (arith, z) in
        rw (log-lookup d s history start) (
          newest-Climbs 0 m.start (entries (lookup d history) ++ s ∷ [])
            (Climbs-snoc 0 m.start (entries (lookup d history)) s h.1 start p))
  ]

module _ {F : Type 0} (fl : Floats F) where
  -- A feed closes the sample for a later one, or goes on with one that began no earlier.
  pub feed-start :
      (m : Sample F) (v : F) (now d : ℕ)
      → ((feed fl m v now d).1 ≡ none) × (m.start ≤ (feed fl m v now d).0.start)
        ⊎ ((feed fl m v now d).1 ≡ some m) × (m.start < (feed fl m v now d).0.start)
  unfolding feed
  feed-start m v now d =
      let period = now / d * d in
      elim (Bool-cases (not (nat_beq period 0) && ltb m.start period)) [
        | inl c ↦ rw (feed, c) (inr (refl, ground (arith, c)))
        | inr c ↦ rw (feed, c) (inl (refl, ground arith))
      ]

  feed_one-IsKept :
      (m : Sample F) (v : F) (now d : ℕ) (history : History F)
      → IsKept history (d, m)
      → IsKept (log_update d (feed fl m v now d).1 history) (d, (feed fl m v now d).0)
  unfolding log_update
  feed_one-IsKept m v now d history h = elim (feed-start m v now d) [
    | inl (kept, p) ↦ rw kept (
      h.0,
      Climbs-weaken 0 0 m.start (feed fl m v now d).0.start (entries (lookup d history))
          (omega arith) p h.1,
    )
    | inr (closed, p) ↦ rw closed (log-IsKept d m (feed fl m v now d).0 history h p)
  ]

  log_update-other :
      (d j : ℕ) (update : Option (Sample F)) (history : History F)
      → nat_beq d j ≡ false
      → lookup j (log_update d update history) ≡ lookup j history
  unfolding log_update
  log_update-other d j none history h = refl
  log_update-other d j (some s) history h = log-other d j s history h

  IsKept-others :
      (d : ℕ) (update : Option (Sample F)) (history : History F) (current : Samples F)
      → lookup d current ≡ none
      → All (IsKept history) current
      → All (IsKept (log_update d update history)) current
  IsKept-others d update history [] p h = tt
  IsKept-others d update history ((j, m) ∷ current) p h = elim (Bool-cases (nat_beq j d)) [
    | inl e ↦ absurd (ground (arith, e, p))
    | inr e ↦
        let kept = log_update-other d j update history (ground (arith, e)) in
        let rest : lookup d current ≡ none = ground (arith, e, p) in
        (rw kept h.0, IsKept-others d update history current rest h.1)
  ]

  feed_each-lookup :
      (v : F) (now j : ℕ) (current : Samples F) (history : History F)
      → lookup j current ≡ none
      → (lookup j (feed_each fl v now current history).0 ≡ none)
        × (lookup j (feed_each fl v now current history).2 ≡ lookup j history)
  unfolding feed_each
  feed_each-lookup v now j [] history h = (refl, refl)
  feed_each-lookup v now j ((d, m) ∷ current) history h = elim (Bool-cases (nat_beq d j)) [
    | inl e ↦ absurd (ground (arith, e, h))
    | inr e ↦
        let update = (feed fl m v now d).1 in
        let rest : lookup j current ≡ none = ground (arith, e, h) in
        let later = feed_each-lookup v now j current (log_update d update history) rest in
        (rw e later.0, later.1 ∙ log_update-other d j update history e)
  ]

  pub feed_each-IsKept :
      (v : F) (now : ℕ) (current : Samples F) (history : History F)
      → IsApart current
      → All (IsKept history) current
      → IsApart (feed_each fl v now current history).0
        × All (IsKept (feed_each fl v now current history).2) (feed_each fl v now current history).0
  unfolding feed_each
  feed_each-IsKept v now [] history a h = (tt, tt)
  feed_each-IsKept v now ((d, m) ∷ current) history a h =
      let update = (feed fl m v now d).1 in
      let logged = log_update d update history in
      let later =
        feed_each-IsKept v now current logged a.1
          (IsKept-others d update history current a.0 h.1) in
      let unseen = feed_each-lookup v now d current logged a.0 in
      ((unseen.0, later.0), (rw unseen.1 (feed_one-IsKept m v now d history h.0), later.1))
