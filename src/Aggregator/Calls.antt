-- ===== src/Aggregator/Calls.antt =====
-- apps/plugins/aggregator/plugin/stats.go: a statistic over its calls.
use debug_bootstrap.Prelude.{
  ℕ, zero, suc, ◌+◌, ◌-◌, ◌≤◌, none, List, [], ◌∷◌, Bytes, ◌≡◌, refl, ◌∙◌, subst, leb, nat_beq,
  nat_equal, bytes_equal, ◌==◌, arith, All, inl, inr, Bool-cases,
}
use debug_bootstrap.Prelude.Dict.{IsApart, lookup, insert, lookup-insert}
use debug_bootstrap.Prelude.Int.{ℤ, pos, negsuc}
use debug_bootstrap.Aggregator.{
  Floats, Samples, History, State, entries, log_update, feed, new_sample, new_samples, new_state,
  average, feed_each, init, rate, feed_value, feed_since, feed_on,
}
use debug_bootstrap.Aggregator.History.{
  Climbs-weaken, IsKept, IsState, feed-start, feed_each-IsKept,
}

module _ {F : Type 0} (fl : Floats F) where
  -- The samples of the first value, over a history that is not touched
  feed_each-unlogged :
      (v : F) (now : ℕ) (current : Samples F) (history seen : History F)
      → All (IsKept history) current
      → All (IsKept history) (feed_each fl v now current seen).0
  unfolding feed_each
  feed_each-unlogged v now [] history seen h = tt
  feed_each-unlogged v now ((d, m) ∷ current) history seen h =
      let update = (feed fl m v now d).1 in
      let later = feed_each-unlogged v now current history (log_update d update seen) h.1 in
      let grown : m.start ≤ (feed fl m v now d).0.start = elim (feed-start fl m v now d) [
        | inl p ↦ p.1
        | inr p ↦ omega (arith, p.1)
      ] in
      (
        (
          h.0.0,
          Climbs-weaken 0 0 m.start (feed fl m v now d).0.start (entries (lookup d history))
              (omega arith) grown h.0.1,
        ),
        later,
      )

  init-IsState : (now : ℕ) (v : F) (s : State F) → IsState s → IsState (init fl now v s)
  unfolding init
  init-IsState now v s h = elim (Bool-cases (s.operation == average)) [
    | inl e ↦
        rw (init, e)
          (
            (feed_each-IsKept fl v now s.current s.history h.0 h.1).0,
            feed_each-unlogged v now s.current s.history s.history h.1,
          )
    | inr e ↦ rw (init, e) h
  ]

  feed_value-IsState :
      (now : ℕ) (v : F) (s : State F) → IsState s → IsState (feed_value fl now v s).0
  unfolding feed_value
  feed_value-IsState now v s h = elim (Bool-cases (fl.is_nan v)) [
    | inl e ↦ rw (feed_value, e) h
    | inr e ↦ rw (feed_value, e) (feed_each-IsKept fl v now s.current s.history h.0 h.1)
  ]

  feed_since-IsState :
      (last : ℤ) (now : ℕ) (v : F) (s : State F)
      → IsState s
      → IsState (feed_since fl last now v s).0
  unfolding feed_since
  feed_since-IsState (negsuc zero) now v s h = init-IsState now v s h
  feed_since-IsState (negsuc (suc n)) now v s h =
      feed_value-IsState now (rate fl s (now + n + 2) v) s h
  feed_since-IsState (pos last) now v s h = elim (Bool-cases (leb now last)) [
    | inl e ↦ rw (feed_since, e) h
    | inr e ↦ rw (feed_since, e) (feed_value-IsState now (rate fl s (now - last) v) s h)
  ]

  feed_on-IsState : (now : ℕ) (v : F) (s : State F) → IsState s → IsState (feed_on fl now v s).0
  unfolding feed_on
  feed_on-IsState now v s h = feed_since-IsState s.last_time now v s h

  -- A new statistic has a fresh sample for each duration, and no history.
  abbrev IsFresh : Samples F → Type 0
  IsFresh current = IsApart current × All (IsKept []) current

  insert-IsFresh :
      (d : ℕ) (current : Samples F) → IsFresh current → IsFresh (insert d (new_sample fl) current)
  insert-IsFresh d [] h = ((refl, tt), ((omega arith, tt), tt))
  insert-IsFresh d ((j, m) ∷ current) h = elim (Bool-cases (nat_beq j d)) [
    | inl e ↦ rw e (
      (subst (λ k. lookup k current ≡ none) (ground (arith, e)) h.0.0, h.0.1),
      ((omega arith, tt), h.1.1),
    )
    | inr e ↦
        let apart : lookup j (insert d (new_sample fl) current) ≡ none =
          lookup-insert d j (new_sample fl) current ∙ ground (arith, e, h.0.0) in
        let rest = insert-IsFresh d current (h.0.1, h.1.1) in
        rw e ((apart, rest.0), (h.1.0, rest.1))
  ]

  new_samples-IsFresh :
      (ds : List ℕ) (current : Samples F) → IsFresh current → IsFresh (new_samples fl ds current)
  unfolding new_samples
  new_samples-IsFresh [] current h = h
  new_samples-IsFresh (d ∷ ds) current h =
      new_samples-IsFresh ds (insert d (new_sample fl) current) (insert-IsFresh d current h)

  abbrev pub feeds : State F → List (ℕ × F) → State F
  feeds s [] = s
  feeds s ((now, v) ∷ rest) = feeds (feed_on fl now v s).0 rest

  feeds_from : (s : State F) (calls : List (ℕ × F)) → IsState s → IsState (feeds s calls)
  feeds_from s [] h = h
  feeds_from s ((now, v) ∷ rest) h =
      feeds_from (feed_on fl now v s).0 rest (feed_on-IsState now v s h)

  -- A statistic that was made for any durations and fed any values at any times, also at times that
  -- go back, keeps for each duration at most five samples. They began one after the other, none at
  -- the time 0, and before the sample that is being fed, and each duration is measured once.
  pub feeds-IsState :
      (op : Bytes) (durations : List ℕ) (calls : List (ℕ × F))
      → IsState (feeds (new_state fl op durations) calls)
  unfolding new_state
  feeds-IsState op durations calls =
      feeds_from (new_state fl op durations) calls (new_samples-IsFresh durations [] (tt, tt))
