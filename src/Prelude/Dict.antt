-- ===== src/Prelude/Dict.antt =====
-- Go's `map[K]V` as an association list. A key stands in it once: an insertion replaces the value
-- in place, and a removal takes out every entry of the key.
use debug_bootstrap.Prelude.Tests.{Eq, ◌==◌, if◌then◌else◌, Bool-cases}
use debug_bootstrap.Prelude.Lists.{length, All}
use Prim.Native.Nat.{suc}
use mathlib.Core.Path.{◌≡◌, refl, subst, ◌∙◌}
use mathlib.Core.Logic.{inl, inr}
use mathlib.Core.Option.{Option, none, some, some-injective}
use mathlib.Core.List.{List, [], ◌∷◌}
use native.Mathlib.Omega.{arith}

abbrev pub Dict : Type 0 → Type 0 → Type 0
Dict K V = List (K × V)

module _ {K : Type 0} {V : Type 0} ⦃e : Eq K⦄ where
  -- v, ok := m[k]
  abbrev pub lookup : K → Dict K V → Option V
  lookup k [] = none
  lookup k ((j, v) ∷ m) = if j == k then some v else lookup k m

  -- m[k] = v
  abbrev pub insert : K → V → Dict K V → Dict K V
  insert k v [] = (k, v) ∷ []
  insert k v ((j, w) ∷ m) = if j == k then (k, v) ∷ m else (j, w) ∷ insert k v m

  -- delete(m, k)
  abbrev pub remove : K → Dict K V → Dict K V
  remove k [] = []
  remove k ((j, w) ∷ m) = let rest = remove k m in if j == k then rest else (j, w) ∷ rest

  pub lookup-insert :
      (k j : K) (v : V) (m : Dict K V)
      → lookup j (insert k v m) ≡ (if k == j then some v else lookup j m)
  lookup-insert k j v [] = refl
  lookup-insert k j v ((i, w) ∷ m) =
      ground (arith, e.sound k j, e.sound i k, e.sound i j, lookup-insert k j v m)

  pub lookup-remove :
      (k j : K) (m : Dict K V) → lookup j (remove k m) ≡ (if k == j then none else lookup j m)
  lookup-remove k j [] = ground arith
  lookup-remove k j ((i, w) ∷ m) =
      ground (arith, e.sound k j, e.sound i k, e.sound i j, lookup-remove k j m)

  pub length-insert_new :
      (k : K) (v : V) (m : Dict K V) → lookup k m ≡ none → length (insert k v m) ≡ suc (length m)
  length-insert_new k v [] h = refl
  length-insert_new k v ((i, w) ∷ m) h = ground (arith, length-insert_new k v m)

  -- Each key stands in the map once.
  abbrev pub IsApart : Dict K V → Type 0
  IsApart [] = Unit
  IsApart ((k, v) ∷ m) = (lookup k m ≡ none) × IsApart m

  pub insert-IsApart : (k : K) (v : V) (m : Dict K V) → IsApart m → IsApart (insert k v m)
  insert-IsApart k v [] h = (refl, tt)
  insert-IsApart k v ((j, w) ∷ m) h = elim (Bool-cases (j == k)) [
    | inl p ↦ rw p (subst (λ i. lookup i m ≡ none) ((e.sound j k).0 p) h.0, h.1)
    | inr p ↦
        let apart : lookup j (insert k v m) ≡ none =
          lookup-insert k j v m ∙ ground (arith, e.sound k j, e.sound j k, p, h.0) in
        rw p (apart, insert-IsApart k v m h.1)
  ]

  -- What holds of every entry holds of the value that is found.
  pub lookup-All :
      (P : K → V → Type 0) (m : Dict K V) (k : K) (v : V)
      → All (λ entry. P entry.0 entry.1) m
      → lookup k m ≡ some v
      → P k v
  lookup-All P [] k v all found = absurd cc
  lookup-All P ((j, w) ∷ m) k v (p, all) found = elim (Bool-cases (j == k)) [
    | inl same ↦
        let first : some w ≡ some v = rw same at found in
        subst (λ i. P i v) ((e.sound j k).0 same) (subst (P j) (some-injective _ _ first) p)
    | inr other ↦ lookup-All P m k v all (rw other at found)
  ]
