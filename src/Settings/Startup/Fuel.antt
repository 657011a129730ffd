-- ===== src/Settings/Startup/Fuel.antt =====
-- The nested calls that the weights of base/settings/startup.go take.
use debug_bootstrap.Prelude.{
  ℕ, zero, suc, ◌≤◌, ◌<◌, ◌≡◌, ◌≢◌, refl, sym, subst, true, false, Option, none, some, List, [],
  ◌∷◌, ◌++◌, Bytes, bytes_equal, bytes_eq_iff, contains, if◌then◌else◌, length, arith, ◌==◌,
  Bool-cases, inl, inr,
}
use debug_bootstrap.Prelude.Int.{ℤ}
use debug_bootstrap.Prelude.Dict.{Dict, lookup}
use debug_bootstrap.Settings.Startup.{
  Startup, priority, Weighed, out_of_fuel, plus, weigh_one, weigh_all, weigh_after, weight,
}

-- The services that are not on the way.
left : List Bytes → Dict Bytes Startup → ℕ
left chain [] = 0
left chain ((k, s) ∷ rest) = if contains chain k then left chain rest else suc (left chain rest)

-- Every service knows its key.
abbrev pub IsPrepared : Dict Bytes Startup → Type 0
IsPrepared services = (k : Bytes) (s : Startup) → lookup k services ≡ some s → s.key ≡ k

contains-snoc :
    (chain : List Bytes) (k x : Bytes)
    → contains (chain ++ k ∷ []) x ≡ (if contains chain x then true else (k == x))
contains-snoc [] k x = ground arith
contains-snoc (c ∷ chain) k x = ground (arith, contains-snoc chain k x)

left-snoc_le :
    (chain : List Bytes) (k : Bytes) (m : Dict Bytes Startup)
    → left (chain ++ k ∷ []) m ≤ left chain m
unfolding left
left-snoc_le chain k [] = omega arith
left-snoc_le chain k ((j, s) ∷ m) = ground (arith, contains-snoc chain k j, left-snoc_le chain k m)

-- Going to a service that is not on the way leaves one fewer.
left-snoc_lt :
    (chain : List Bytes) (k : Bytes) (s : Startup) (m : Dict Bytes Startup)
    → lookup k m ≡ some s
    → contains chain k ≡ false
    → left (chain ++ k ∷ []) m < left chain m
unfolding left
left-snoc_lt chain k s [] h n = cc
left-snoc_lt chain k s ((j, t) ∷ m) h n = ground (
  arith,
  contains-snoc chain k j,
  bytes_eq_iff j k,
  bytes_eq_iff k j,
  left-snoc_le chain k m,
  left-snoc_lt chain k s m,
)

abbrev Fueled : Weighed → Type 0
Fueled w = w ≢ out_of_fuel

plus-Fueled : (d w : Weighed) → Fueled d → Fueled w → Fueled (plus d w)
unfolding plus
plus-Fueled d w p q = ground arith

weigh_all-Fueled :
    (weigh : Startup → Weighed) (m : Dict Bytes Startup) (names : List Bytes)
    → ((k : Bytes) (s : Startup) → lookup k m ≡ some s → Fueled (weigh s))
    → Fueled (weigh_all weigh m names)
unfolding weigh_all
weigh_all-Fueled weigh m [] h = λ e. cc
weigh_all-Fueled weigh m (a ∷ rest) h =
    plus-Fueled _ (weigh_all weigh m rest) (one (priority a) (lookup a m) refl)
      (weigh_all-Fueled weigh m rest h)
  where
    one : (x : Option ℤ) (d : Option Startup) → lookup a m ≡ d → Fueled (weigh_one weigh a x d)
    one (some x) d e = λ e. cc
    one none (some d) e = h a d e
    one none none e = λ e. cc

weigh_after-Fueled :
    (weigh : Startup → Weighed) (m : Dict Bytes Startup) (names : List Bytes)
    → ((k : Bytes) (s : Startup) → lookup k m ≡ some s → Fueled (weigh s))
    → Fueled (weigh_after weigh m names)
unfolding weigh_after
weigh_after-Fueled weigh m [] h = λ e. cc
weigh_after-Fueled weigh m (a ∷ rest) h = weigh_all-Fueled weigh m (a ∷ rest) h

weight-Fueled :
    (fuel : ℕ) (m : Dict Bytes Startup) (chain : List Bytes) (k : Bytes) (s : Startup)
    → IsPrepared m
    → lookup k m ≡ some s
    → left chain m < fuel
    → Fueled (weight fuel m chain s)
unfolding weight
weight-Fueled zero m chain k s p e h = elim h [ ]
weight-Fueled (suc fuel) m chain k s p e h = elim (Bool-cases (contains chain s.key)) [
  | inl t ↦ rw t (λ x. cc)
  | inr f ↦
      let fewer : left (chain ++ s.key ∷ []) m < left chain m =
        left-snoc_lt chain s.key s m (subst (λ j. lookup j m ≡ some s) (sym (p k s e)) e) f in
      rw f (
        weigh_after-Fueled (weight fuel m (chain ++ s.key ∷ [])) m s.after
          (λ j d e'. weight-Fueled fuel m (chain ++ s.key ∷ []) j d p e' (omega (arith, fewer))))
]

left-le-length : (chain : List Bytes) (m : Dict Bytes Startup) → left chain m ≤ length m
unfolding left
left-le-length chain [] = omega arith
left-le-length chain ((k, s) ∷ m) = ground (arith, left-le-length chain m)

-- Fuel for one call more than there are services is enough for every service of a prepared table:
-- its weight is computed, or found to be cyclic, or an unknown dependency is named.
pub weight_total :
    (m : Dict Bytes Startup) (k : Bytes) (s : Startup)
    → IsPrepared m
    → lookup k m ≡ some s
    → weight (suc (length m)) m [] s ≢ out_of_fuel
weight_total m k s p e =
    weight-Fueled (suc (length m)) m [] k s p e (omega (arith, left-le-length [] m))
