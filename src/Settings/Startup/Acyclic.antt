-- ===== src/Settings/Startup/Acyclic.antt =====
-- Chains of dependencies among the services of base/settings/startup.go.
use mathlib.Core.WellFounded.{Acc}
use debug_bootstrap.Prelude.{
  ℕ, zero, suc, ◌≡◌, refl, Option, none, some, List, [], ◌∷◌, ◌++◌, Bytes, bytes_equal, contains,
  Names, here, there, Bool-cases, inl, inr, subst,
}
use debug_bootstrap.Prelude.Int.{ℤ}
use debug_bootstrap.Prelude.Dict.{Dict, lookup}
use debug_bootstrap.Settings.Startup.{
  Startup, priority, Weighed, weighs, cyclic, out_of_fuel, unknown, plus, weigh_one, weigh_all,
  weigh_after, weight,
}

-- The service `k` names the service `a` in its After, and `a` is no priority.
pub record Depends (m : Dict Bytes Startup) (a k : Bytes) : Type 0 where
  pub service : Startup
  pub found : lookup k m ≡ some service
  pub named : Names a service.after
  pub no_priority : priority a ≡ none

-- A sum that is defined has defined parts.
plus-weighs :
    (d w : Weighed) {n : ℤ}
    → plus d w ≡ weighs n
    → ((x : ℤ) × (d ≡ weighs x)) × ((y : ℤ) × (w ≡ weighs y))
unfolding plus
plus-weighs (weighs d) (weighs w) e = ((d, refl), (w, refl))
plus-weighs (weighs d) cyclic e = cc
plus-weighs (weighs d) out_of_fuel e = cc
plus-weighs (weighs d) (unknown a) e = cc
plus-weighs cyclic w e = cc
plus-weighs out_of_fuel w e = cc
plus-weighs (unknown a) w e = cc

-- A dependency that weighs is a service that weighs.
abbrev Weighs : (Startup → Weighed) → Dict Bytes Startup → Bytes → Type 0
Weighs weigh m a = (d : Startup) × (lookup a m ≡ some d) × ((n : ℤ) × (weigh d ≡ weighs n))

one-Weighs :
    (weigh : Startup → Weighed) (m : Dict Bytes Startup) (a : Bytes) (d : Option Startup) {n : ℤ}
    → lookup a m ≡ d
    → weigh_one weigh a none d ≡ weighs n
    → Weighs weigh m a
unfolding weigh_one
one-Weighs weigh m a none e h = cc
one-Weighs weigh m a (some d) {n} e h = (d, e, (n, h))

all-Weighs :
    (weigh : Startup → Weighed) (m : Dict Bytes Startup) (names : List Bytes) (a : Bytes) (n : ℤ)
    → weigh_all weigh m names ≡ weighs n
    → Names a names
    → priority a ≡ none
    → Weighs weigh m a
unfolding weigh_all
all-Weighs weigh m [] a n e i q = elim i [ ]
all-Weighs weigh m (b ∷ rest) a n e here q =
    let parts =
      plus-weighs (weigh_one weigh a (priority a) (lookup a m)) (weigh_all weigh m rest) e in
    one-Weighs weigh m a (lookup a m) refl (rw q at (parts.0.1))
all-Weighs weigh m (b ∷ rest) a n e (there i) q =
    let parts =
      plus-weighs (weigh_one weigh b (priority b) (lookup b m)) (weigh_all weigh m rest) e in
    all-Weighs weigh m rest a parts.1.0 parts.1.1 i q

after-Weighs :
    (weigh : Startup → Weighed) (m : Dict Bytes Startup) (names : List Bytes) (a : Bytes) (n : ℤ)
    → weigh_after weigh m names ≡ weighs n
    → Names a names
    → priority a ≡ none
    → Weighs weigh m a
unfolding weigh_after
after-Weighs weigh m [] a n e i q = elim i [ ]
after-Weighs weigh m (b ∷ rest) a n e i q = all-Weighs weigh m (b ∷ rest) a n e i q

weight-deeper :
    (fuel : ℕ) (m : Dict Bytes Startup) (chain : List Bytes) (s : Startup) (n : ℤ)
    → weight (suc fuel) m chain s ≡ weighs n
    → weigh_after (weight fuel m (chain ++ s.key ∷ [])) m s.after ≡ weighs n
unfolding weight
weight-deeper fuel m chain s n w = elim (Bool-cases (contains chain s.key)) [
  | inl t ↦ cc (rw t at w)
  | inr f ↦ rw f at w
]

no_fuel :
    (m : Dict Bytes Startup) (chain : List Bytes) (s : Startup) (n : ℤ)
    → ¬ (weight zero m chain s ≡ weighs n)
unfolding weight
no_fuel m chain s n w = cc

pub weighs-Acc :
    (fuel : ℕ) (m : Dict Bytes Startup) (chain : List Bytes) (k : Bytes) (s : Startup) (n : ℤ)
    → lookup k m ≡ some s
    → weight fuel m chain s ≡ weighs n
    → Acc (Depends m) k
weighs-Acc zero m chain k s n e w = absurd (no_fuel m chain s n w)
weighs-Acc (suc fuel) m chain k s n e w = Acc.intro k (λ a d.
    let same : d.service ≡ s = cc (d.found, e) in
    let named : Names a s.after = subst (λ t. Names a (Startup.after t)) same d.named in
    let (d', e', weighed) =
      after-Weighs (weight fuel m (chain ++ s.key ∷ [])) m s.after a n
        (weight-deeper fuel m chain s n w) named d.no_priority in
    weighs-Acc fuel m (chain ++ s.key ∷ []) a d' weighed.0 e' weighed.1)

-- The service `a` is needed for `k`, by one dependency or a chain of them.
pub data Needs (m : Dict Bytes Startup) (a : Bytes) : Bytes → Type 0 where
  direct : {k : Bytes} → Depends m a k → Needs m a k
  through : {b k : Bytes} → Needs m a b → Depends m b k → Needs m a k

Needs-left : {m : Dict Bytes Startup} {a b k : Bytes} → Depends m a b → Needs m b k → Needs m a k
Needs-left d (direct e) = through (direct d) e
Needs-left d (through n e) = through (Needs-left d n) e

not-Needs_self : {m : Dict Bytes Startup} (k : Bytes) → Acc (Depends m) k → Needs m k k → ⊥
not-Needs_self k (Acc.intro _ below) (direct d) = not-Needs_self k (below k d) (direct d)
not-Needs_self k (Acc.intro _ below) (through {b = b} n d) =
    not-Needs_self b (below b d) (Needs-left d n)

-- A service whose weight is computed, with any fuel, needs itself neither directly nor through a
-- chain of other services: a cycle of dependencies has no weight.
pub weighs-not_Needs_self :
    (fuel : ℕ) (m : Dict Bytes Startup) (chain : List Bytes) (k : Bytes) (s : Startup) (n : ℤ)
    → lookup k m ≡ some s
    → weight fuel m chain s ≡ weighs n
    → ¬ Needs m k k
weighs-not_Needs_self fuel m chain k s n e w = not-Needs_self k (weighs-Acc fuel m chain k s n e w)
