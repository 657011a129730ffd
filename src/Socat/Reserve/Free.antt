-- ===== src/Socat/Reserve/Free.antt =====
-- Which ports Reserve of apps/plugins/socat/plugin/socat.go gives.
use debug_bootstrap.Prelude.{
  ℕ, zero, suc, ◌+◌, ◌-◌, ◌≤◌, ◌<◌, ◌≡◌, refl, ap, Bool, true, false, List, [], ◌∷◌, length,
  nat_beq, nat_beq_iff, nat_equal, contains, if◌then◌else◌, arith, Bool-cases, inl, inr, ◌⊎◌,
}
use debug_bootstrap.Socat.Forwards.{Cache, SocatManager}
use debug_bootstrap.Socat.Reserve.{taken, next_free, reserve_from, reserve}

-- The first port from `p` on that is not taken.
pub record IsNext (t : ℕ → Bool) (p q : ℕ) : Type 0 where
  pub from : p ≤ q
  pub to : q ≤ 65536
  pub free : t q ≡ false
  pub before : (i : ℕ) → (i < p) ⊎ (q ≤ i) ⊎ (t i ≡ true)

-- Free ports below 65536, from `lo` on, in growing order.
abbrev pub FreePorts : ℕ → (ℕ → Bool) → List ℕ → Type 0
FreePorts lo t [] = Unit
FreePorts lo t (q ∷ qs) = (lo ≤ q) × (q < 65536) × (t q ≡ false) × FreePorts (suc q) t qs

-- No port from `lo` on is free any more but those given.
abbrev pub IsExhausted : ℕ → (ℕ → Bool) → List ℕ → Type 0
IsExhausted lo t ports = (i : ℕ) → (i < lo) ⊎ (65536 ≤ i) ⊎ (t i ≡ true) ⊎ (contains ports i ≡ true)

pub record IsReservation (n lo : ℕ) (t : ℕ → Bool) (ports : List ℕ) (ok : Bool) : Type 0 where
  pub free : FreePorts lo t ports
  pub complete : ((ok ≡ true) × (length ports ≡ n)) ⊎ ((ok ≡ false) × IsExhausted lo t ports)

later :
    (t : ℕ → Bool) (p i : ℕ) {q : ℕ}
    → t p ≡ true
    → (i < suc p) ⊎ (q ≤ i) ⊎ (t i ≡ true)
    → (i < p) ⊎ (q ≤ i) ⊎ (t i ≡ true)
later t p i busy (inr (inl h)) = inr (inl h)
later t p i busy (inr (inr h)) = inr (inr h)
later t p i busy (inl h) = elim (Bool-cases (nat_beq p i)) [
  | inl same ↦ inr (inr (ground (arith, busy, ap t ((nat_beq_iff p i).0 same))))
  | inr other ↦ inl (ground (arith, h))
]

next_free-IsNext :
    (fuel : ℕ) (t : ℕ → Bool) (p : ℕ)
    → t 65536 ≡ false
    → p ≤ 65536
    → fuel + p ≡ 65537
    → IsNext t p (next_free fuel t p)
unfolding next_free
next_free-IsNext zero t p end h e = absurd (omega arith)
next_free-IsNext (suc fuel) t p end h e = elim (Bool-cases (t p)) [
  | inr free ↦
      rw (free, next_free)
        (record { from = omega arith; to = h; free = free; before = λ i. ground arith })
  | inl busy ↦
      let below : p < 65536 = elim (Bool-cases (nat_beq p 65536)) [
        | inl same ↦ absurd (ground (arith, busy, end, ap t ((nat_beq_iff p 65536).0 same)))
        | inr other ↦ ground arith
      ] in
      let rest = next_free-IsNext fuel t (suc p) end (omega arith) (omega arith) in
      rw (busy, next_free)
        (record {
          from = omega (arith, rest.from);
          to = rest.to;
          free = rest.free;
          before = λ i. later t p i busy (rest.before i);
        })
]

FreePorts-weaken :
    (lo : ℕ) (t u : ℕ → Bool) (qs : List ℕ)
    → ((i : ℕ) → u i ≡ false → t i ≡ false)
    → FreePorts lo u qs
    → FreePorts lo t qs
FreePorts-weaken lo t u [] k h = tt
FreePorts-weaken lo t u (q ∷ qs) k (a, b, c, d) = (a, b, k q c, FreePorts-weaken (suc q) t u qs k d)

-- A port that is taken now is not the next one.
FreePorts-suc :
    (lo : ℕ) (t u : ℕ → Bool) (qs : List ℕ)
    → ((i : ℕ) → u i ≡ (if nat_beq lo i then true else t i))
    → FreePorts lo u qs
    → FreePorts (suc lo) t qs
FreePorts-suc lo t u [] k h = tt
FreePorts-suc lo t u (q ∷ qs) k (a, b, c, d) = (
  ground (arith, k q, a, c),
  b,
  ground (arith, k q, c),
  FreePorts-weaken (suc q) t u qs (λ i e. ground (arith, k i, e)) d,
)

-- Of the ports that the rest of the loop leaves.
exhausted-before :
    (p free i : ℕ) (t u : ℕ → Bool) (ports : List ℕ)
    → u i ≡ (if nat_beq free i then true else t i)
    → (i < p) ⊎ (free ≤ i) ⊎ (t i ≡ true)
    → (i < free) ⊎ (65536 ≤ i) ⊎ (u i ≡ true) ⊎ (contains ports i ≡ true)
    → (i < p) ⊎ (65536 ≤ i) ⊎ (t i ≡ true) ⊎ (contains (free ∷ ports) i ≡ true)
exhausted-before p free i t u ports k (inl h) r = inl h
exhausted-before p free i t u ports k (inr (inr h)) r = inr (inr (inl h))
exhausted-before p free i t u ports k (inr (inl h)) (inl r) = absurd (omega arith)
exhausted-before p free i t u ports k (inr (inl h)) (inr (inl r)) = inr (inl r)
exhausted-before p free i t u ports k (inr (inl h)) (inr (inr (inr r))) =
    inr (inr (inr (ground (arith, r))))
exhausted-before p free i t u ports k (inr (inl h)) (inr (inr (inl r))) =
    elim (Bool-cases (nat_beq free i)) [
      | inl same ↦ inr (inr (inr (ground (arith, same))))
      | inr other ↦ inr (inr (inl (ground (arith, k, r, other))))
    ]

at_end :
    (t : ℕ → Bool) (p f i : ℕ)
    → nat_beq f 65536 ≡ true
    → (i < p) ⊎ (f ≤ i) ⊎ (t i ≡ true)
    → (i < p) ⊎ (65536 ≤ i) ⊎ (t i ≡ true) ⊎ (false ≡ true)
at_end t p f i e (inl h) = inl h
at_end t p f i e (inr (inl h)) = inr (inl (ground (arith, e, h)))
at_end t p f i e (inr (inr h)) = inr (inr (inl h))

module _ {C : Type 0} (cache : Cache C) (listening : List ℕ) where
  taken-set :
      (m : SocatManager C) (f i : ℕ)
      → taken cache listening (record m { reserved = cache.set f m.reserved }) i
        ≡ (if nat_beq f i then true else taken cache listening m i)
  unfolding taken
  taken-set m f i = ground (arith, cache.get-set f i m.reserved)

  reserve_from-IsReservation :
      (n p : ℕ) (m : SocatManager C)
      → taken cache listening m 65536 ≡ false
      → p ≤ 65536
      → let (m', ports, ok) = reserve_from cache n listening p m in
        IsReservation n p (taken cache listening m) ports ok
  unfolding reserve_from
  reserve_from-IsReservation zero p m end h = record { free = tt; complete = inl (refl, refl) }
  reserve_from-IsReservation (suc n) p m end h =
      let t = taken cache listening m in
      let f = next_free (65537 - p) t p in
      let next = next_free-IsNext (65537 - p) t p end h (omega arith) in
      elim (Bool-cases (nat_beq f 65536)) [
        | inl last ↦
            rw (last, reserve_from)
              (record {
                free = tt;
                complete = inr (refl, λ i. at_end t p f i last (next.before i));
              })
        | inr more ↦
            let kept : SocatManager C = record m { reserved = cache.set f m.reserved } in
            let same = taken-set m f in
            let rest =
              reserve_from-IsReservation n f kept (ground (arith, same 65536, more, end)) next.to in
            rw (more, reserve_from)
              (record {
                free = (
                  next.from,
                  ground (arith, next.to, more),
                  next.free,
                  FreePorts-suc f t (taken cache listening kept)
                      (reserve_from cache n listening f kept).1 same rest.free,
                );
                complete = elim rest.complete [
                  | inl (done, count) ↦ inl (done, ap suc count)
                  | inr (stopped, none_left) ↦ inr (
                    stopped,
                    λ i.
                        exhausted-before p f i t (taken cache listening kept)
                          (reserve_from cache n listening f kept).1 (same i) (next.before i)
                          (none_left i),
                  )
                ];
              })
      ]

  -- If the host does not listen on a port 65536, Reserve gives, in growing order, ports from 1024 to
  -- 65535 that are not listened on, not forwarded and not reserved. Either it gives as many as were
  -- asked for, or it reports that the pool is exhausted, and then no port of that range is left that
  -- is not one of these.
  pub reserve-IsReservation :
      (n : ℕ) (m : SocatManager C)
      → taken cache listening m 65536 ≡ false
      → let (m', ports, ok) = reserve cache n listening m in
        IsReservation n 1024 (taken cache listening m) ports ok
  unfolding reserve
  reserve-IsReservation n m end = reserve_from-IsReservation n 1024 m end (omega arith)
