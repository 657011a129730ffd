-- ===== src/Prelude/Lists.antt =====
-- Lists measured and indexed by native numbers, under the library's names.
use Prim.Native.Nat.{ℕ, zero, suc, ◌+◌, ◌-◌, ◌≤◌, min}
use mathlib.Core.Path.{◌≡◌, refl, ap, sym, ◌∙◌}
use native.Mathlib.Nat.{add-zero, zero-add, suc-add, add-suc}
use mathlib.Core.List.{List, [], ◌∷◌, ◌++◌}
use mathlib.Core.Option.{Option, none, some}
use mathlib.Core.Bool.{Bool, true, false}
use mathlib.Core.Logic.{◌≢◌}
use native.Mathlib.Omega.{arith}
use debug_bootstrap.Prelude.Tests.{Eq, ◌==◌, if◌then◌else◌}

module _ {ℓ} {A : Type ℓ} where
  abbrev pub length : List A → ℕ
  length [] = 0
  length (x ∷ xs) = suc (length xs)

  abbrev pub get_elem? : List A → ℕ → Option A
  get_elem? [] i = none
  get_elem? (x ∷ xs) zero = some x
  get_elem? (x ∷ xs) (suc i) = get_elem? xs i

  abbrev pub take : ℕ → List A → List A
  take zero xs = []
  take (suc n) [] = []
  take (suc n) (x ∷ xs) = x ∷ take n xs

  abbrev pub drop : ℕ → List A → List A
  drop zero xs = xs
  drop (suc n) [] = []
  drop (suc n) (x ∷ xs) = drop n xs

  pub length-append : (xs ys : List A) → length (xs ++ ys) ≡ length xs + length ys
  length-append [] ys = omega arith
  length-append (x ∷ xs) ys = omega (arith, length-append xs ys)

  pub length-take : (n : ℕ) (xs : List A) → length (take n xs) ≡ min n (length xs)
  length-take zero xs = omega arith
  length-take (suc n) [] = omega arith
  length-take (suc n) (x ∷ xs) = omega (arith, length-take n xs)

  pub length-drop : (n : ℕ) (xs : List A) → length (drop n xs) ≡ length xs - n
  length-drop zero xs = omega arith
  length-drop (suc n) [] = omega arith
  length-drop (suc n) (x ∷ xs) = omega (arith, length-drop n xs)

  pub take-append-drop : (n : ℕ) (xs : List A) → take n xs ++ drop n xs ≡ xs
  take-append-drop zero xs = refl
  take-append-drop (suc n) [] = refl
  take-append-drop (suc n) (x ∷ xs) = ap (◌∷◌ x) (take-append-drop n xs)

  pub drop-append_le :
      (n : ℕ) (xs ys : List A) → n ≤ length xs → drop n (xs ++ ys) ≡ drop n xs ++ ys
  drop-append_le zero xs ys h = refl
  drop-append_le (suc n) [] ys h = absurd (omega arith)
  drop-append_le (suc n) (x ∷ xs) ys h = drop-append_le n xs ys (omega arith)

  pub drop-drop : (n k : ℕ) (xs : List A) → drop n (drop k xs) ≡ drop (n + k) xs
  drop-drop n zero xs = rw add-zero
  drop-drop zero (suc k) [] = rw zero-add
  drop-drop (suc n) (suc k) [] = rw suc-add
  drop-drop n (suc k) (x ∷ xs) = rw (add-suc, drop-drop n k xs)

  -- The last entries, up to a number
  abbrev pub last_n : ℕ → List A → List A
  last_n n xs = drop (length xs - n) xs

  -- To keep the last entries of the last entries and more is to keep the last of all.
  pub last_n-append : (n : ℕ) (xs ys : List A) → last_n n (last_n n xs ++ ys) ≡ last_n n (xs ++ ys)
  last_n-append n xs ys =
      let k = length xs - n in
      let left = drop k xs in
      let total : length (left ++ ys) - n + k ≡ length (xs ++ ys) - n =
        omega (arith, length-append left ys, length-append xs ys, length-drop k xs) in
      ap (drop (length (left ++ ys) - n)) (sym (drop-append_le k xs ys (omega arith)))
      ∙ drop-drop (length (left ++ ys) - n) k (xs ++ ys)
      ∙ ap (λ m. drop m (xs ++ ys)) total

-- A predicate that holds of every entry computes to a tuple.
abbrev pub All {ℓ κ} : {A : Type ℓ} → (A → Type κ) → List A → Type κ
All P [] = Unit
All P (x ∷ xs) = P x × All P xs

-- Is the value in the list (`In` and `InString` of the program's utils are this loop)?
abbrev pub contains {ℓ} : {A : Type ℓ} ⦃e : Eq A⦄ → List A → A → Bool
contains [] a = false
contains (x ∷ xs) a = if x == a then true else contains xs a

-- The value stands in the list.
pub data Names {A : Type 0} (a : A) : List A → Type 0 where
  here : {rest : List A} → Names a (a ∷ rest)
  there : {b : A} {rest : List A} → Names a rest → Names a (b ∷ rest)

-- What holds of every entry holds of an entry.
pub All-Names : {A : Type 0} (P : A → Type 0) {a : A} (xs : List A) → All P xs → Names a xs → P a
All-Names P [] all at = elim at [ ]
All-Names P (a ∷ xs) (p, all) here = p
All-Names P (x ∷ xs) (p, all) (there at) = All-Names P xs all at

-- What holds of the first entry, and of a value that stands in the others.
pub Names-split :
    {A : Type 0} (P : A → Type 0) {a x : A} {xs : List A}
    → P x
    → (Names a xs → P a)
    → Names a (x ∷ xs)
    → P a
Names-split P first others here = first
Names-split P first others (there at) = others at

-- A value other than the first stands in the others.
pub Names-other : {A : Type 0} {a x : A} {xs : List A} → a ≢ x → Names a (x ∷ xs) → Names a xs
Names-other {x = x} {xs = xs} ne at =
    Names-split (λ b. b ≢ x → Names b xs) (λ n. absurd (n refl)) (λ later n. later) at ne
