-- ===== src/Utils/Levels/Ascending.antt =====
-- The lists of levels that Expand of base/utils/utils.go gives.
use mathlib.Core.Option.{some-injective}
use debug_bootstrap.Prelude.{
  ℕ, zero, suc, ◌-◌, ◌<◌, ◌≡◌, refl, subst, true, Option, none, some, List, [], ◌∷◌, Bytes, codes,
  bytes_equal, nat_equal, ◌==◌, ltb, ltb→lt, min, contains, split, All, Bool-cases, Option-cases,
  inl, inr, arith,
}
use debug_bootstrap.Mgr.Stats.{trim}
use debug_bootstrap.Utils.Levels.{
  valid_levels, add_level, add_range, add_valid, insert_level, sorted_levels, add_bounds,
  add_boundaries, add_parts, expand,
}

-- Each level is above the one before it.
abbrev pub IsAscending : ℕ → List ℕ → Type 0
IsAscending low [] = Unit
IsAscending low (l ∷ ls) = (low < l) × IsAscending l ls

abbrev pub AllValid : List ℕ → Type 0
AllValid ls = All (λ l. contains valid_levels l ≡ true) ls

insert_level-IsAscending :
    (low l : ℕ) (ls : List ℕ) → low < l → IsAscending low ls → IsAscending low (insert_level l ls)
unfolding insert_level
insert_level-IsAscending low l [] lt h = (lt, tt)
insert_level-IsAscending low l (k ∷ ks) lt (below, h) = elim (Bool-cases (ltb l k)) [
  | inl less ↦ rw less (lt, (ltb→lt l k less, h))
  | inr not_less ↦ elim (Bool-cases (l == k)) [
    | inl same ↦ rw (not_less, same) (below, h)
    | inr differs ↦
        let above : k < l = ground arith in
        rw (not_less, differs) (below, insert_level-IsAscending k l ks above h)
  ]
]

insert_level-AllValid :
    (l : ℕ) (ls : List ℕ)
    → contains valid_levels l ≡ true
    → AllValid ls
    → AllValid (insert_level l ls)
unfolding insert_level
insert_level-AllValid l [] v h = (v, tt)
insert_level-AllValid l (k ∷ ks) v (w, h) = elim (Bool-cases (ltb l k)) [
  | inl less ↦ rw less (v, (w, h))
  | inr not_less ↦ elim (Bool-cases (l == k)) [
    | inl same ↦ rw (not_less, same) (w, h)
    | inr differs ↦ rw (not_less, differs) (w, insert_level-AllValid l ks v h)
  ]
]

valid_positive : (l : ℕ) → contains valid_levels l ≡ true → 0 < l
valid_positive zero v = absurd cc
valid_positive (suc l) v = omega arith

sorted_levels-IsLevels :
    (ls : List ℕ) → AllValid ls → IsAscending 0 (sorted_levels ls) × AllValid (sorted_levels ls)
unfolding sorted_levels
sorted_levels-IsLevels [] h = (tt, tt)
sorted_levels-IsLevels (l ∷ ls) (v, h) =
    let (up, valid) = sorted_levels-IsLevels ls h in
    (
      insert_level-IsAscending 0 l (sorted_levels ls) (valid_positive l v) up,
      insert_level-AllValid l (sorted_levels ls) v valid,
    )

add_level-AllValid : (l : ℕ) (ls : List ℕ) → AllValid ls → AllValid (add_level l ls)
unfolding add_level
add_level-AllValid l ls h = elim (Bool-cases (contains valid_levels l)) [
  | inl v ↦ rw v (v, h)
  | inr no_level ↦ rw no_level h
]

add_range-AllValid : (n i : ℕ) (ls : List ℕ) → AllValid ls → AllValid (add_range n i ls)
unfolding add_range
add_range-AllValid zero i ls h = h
add_range-AllValid (suc n) i ls h =
    add_range-AllValid n (suc i) (add_level i ls) (add_level-AllValid i ls h)

add_valid-AllValid : (more ls : List ℕ) → AllValid more → AllValid ls → AllValid (add_valid more ls)
unfolding add_valid
add_valid-AllValid [] ls m h = h
add_valid-AllValid (l ∷ more) ls (v, m) h = add_valid-AllValid more (l ∷ ls) m (v, h)

all_valid : AllValid valid_levels
all_valid = (
  refl,
  (
    refl,
    (
      refl,
      (
        refl,
        (
          refl,
          (
            refl,
            (refl, (refl, (refl, (refl, (refl, (refl, (refl, (refl, (refl, (refl, tt)))))))))),
          ),
        ),
      ),
    ),
  ),
)

-- What is given for a text, if anything is, has the property.
abbrev pub Gives : (List ℕ → Type 0) → Option (List ℕ) → Type 0
Gives P none = Unit
Gives P (some levels) = P levels

module _ (trim_space : Bytes → Bytes) (parse_int : Bytes → Option ℕ) where
  add_bounds-AllValid :
      (lower : Bytes) (upper : Option ℕ) (ls : List ℕ)
      → AllValid ls
      → Gives AllValid (add_bounds trim_space parse_int lower upper ls)
  unfolding add_bounds
  add_bounds-AllValid lower upper ls h = elim (Bool-cases (lower == codes "*")) [
    | inl star ↦ rw star (add_valid-AllValid valid_levels ls all_valid h)
    | inr number ↦ elim (Option-cases (parse_int lower)) [
      | inl bad ↦ rw (number, bad) tt
      | inr (low, read) ↦ elim (Option-cases upper) [
        | inl no_upper ↦ rw (number, read, no_upper) (add_level-AllValid low ls h)
        | inr (up, there_is) ↦
            rw (number, read, there_is) (add_range-AllValid (suc (min up 30) - low) low ls h)
      ]
    ]
  ]

  add_boundaries-AllValid :
      (parts : List Bytes) (ls : List ℕ)
      → AllValid ls
      → Gives AllValid (add_boundaries trim_space parse_int parts ls)
  unfolding add_boundaries
  add_boundaries-AllValid [] ls h = h
  add_boundaries-AllValid (lower ∷ []) ls h = add_bounds-AllValid (trim lower) none ls h
  add_boundaries-AllValid (lower ∷ upper ∷ more) ls h =
      elim (Option-cases (parse_int (trim_space upper))) [
        | inl bad ↦ rw (add_boundaries, bad) tt
        | inr (up, read) ↦
            rw (add_boundaries, read) (add_bounds-AllValid (trim lower) (some up) ls h)
      ]

  add_parts-AllValid :
      (parts : List Bytes) (ls : List ℕ)
      → AllValid ls
      → Gives AllValid (add_parts trim_space parse_int parts ls)
  unfolding add_parts
  add_parts-AllValid [] ls h = h
  add_parts-AllValid (part ∷ parts) ls h =
      let one = add_boundaries-AllValid (split b'-' (trim_space part)) ls h in
      elim (Option-cases (add_boundaries trim_space parse_int (split b'-' (trim_space part)) ls)) [
        | inl bad ↦ rw (add_parts, bad) tt
        | inr (more, read) ↦ rw (add_parts, read) (add_parts-AllValid parts more (rw read at one))
      ]

  -- Whatever the text is, the levels that Expand gives, if there is no error, are valid ones and
  -- stand in ascending order, each of them once.
  pub expand-IsLevels :
      (s : Bytes) (levels : List ℕ)
      → expand trim_space parse_int s ≡ some levels
      → IsAscending 0 levels × AllValid levels
  unfolding expand
  expand-IsLevels s levels e =
      elim (Option-cases (add_parts trim_space parse_int (split b',' s) [])) [
        | inl bad ↦ absurd (cc (rw (expand, bad) at e))
        | inr (ls, read) ↦
            let found : some (sorted_levels ls) ≡ some levels = rw (expand, read) at e in
            let valid : AllValid ls = rw read at (add_parts-AllValid (split b',' s) [] tt) in
            subst (λ x. IsAscending 0 x × AllValid x) (some-injective _ _ found)
              (sorted_levels-IsLevels ls valid)
      ]
