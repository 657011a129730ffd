-- ===== src/Utils/Levels.antt =====
-- Expand of base/utils/utils.go: the log levels that a text stands for. strings.TrimSpace is an
-- argument, and so is strconv.ParseInt for base ten and 32 bits: what it reads here has no minus,
-- since the text was split there, and so it is a natural number. The keys of the map are sorted.
pub mod Ascending
use debug_bootstrap.Prelude.{
  ℕ, zero, suc, ◌+◌, ◌-◌, Bool, true, false, Option, none, some, List, [], ◌∷◌, ◌++◌, Bytes, codes,
  bytes_equal, nat_equal, ◌==◌, ltb, min, if◌then◌else◌, contains, split,
}
use debug_bootstrap.Mgr.Stats.{trim}

abbrev pub valid_levels : List ℕ
valid_levels = 1 ∷ 2 ∷ 3 ∷ 4 ∷ 5 ∷ 6 ∷ 7 ∷ 8 ∷ 9 ∷ 10 ∷ 11 ∷ 20 ∷ 21 ∷ 22 ∷ 23 ∷ 30 ∷ []

-- levels[l] = true, if it is valid
unfoldable pub add_level : ℕ → List ℕ → List ℕ
add_level l levels = if contains valid_levels l then l ∷ levels else levels

-- for i := lower; i <= upper; i++, for a number of levels
unfoldable pub add_range : ℕ → ℕ → List ℕ → List ℕ
unfolding add_level
add_range zero i levels = levels
add_range (suc n) i levels = add_range n (suc i) (add_level i levels)

unfoldable pub add_valid : List ℕ → List ℕ → List ℕ
add_valid [] levels = levels
add_valid (l ∷ ls) levels = add_valid ls (l ∷ levels)

-- sort.Ints of the keys: each of them once
unfoldable pub insert_level : ℕ → List ℕ → List ℕ
insert_level l [] = l ∷ []
insert_level l (k ∷ ks) =
    let rest = insert_level l ks in
    if ltb l k then l ∷ k ∷ ks else if l == k then k ∷ ks else k ∷ rest

unfoldable pub sorted_levels : List ℕ → List ℕ
unfolding insert_level
sorted_levels [] = []
sorted_levels (l ∷ ls) = insert_level l (sorted_levels ls)

module _ (trim_space : Bytes → Bytes) (parse_int : Bytes → Option ℕ) where
  -- The part behind the lower boundary: the levels, for what the upper one is
  unfoldable pub add_bounds : Bytes → Option ℕ → List ℕ → Option (List ℕ)
  unfolding add_range add_level add_valid
  add_bounds lower upper levels =
      if lower == codes "*" then some (add_valid valid_levels levels) else elim (parse_int lower) [
        | none ↦ none
        | some low ↦ elim upper [
          | none ↦ some (add_level low levels)
          | some up ↦ some (add_range (suc (min up 30) - low) low levels)
        ]
      ]

  -- The boundaries of a part: an upper one that is no number is an error
  unfoldable pub add_boundaries : List Bytes → List ℕ → Option (List ℕ)
  unfolding add_bounds
  add_boundaries [] levels = some levels
  add_boundaries (lower ∷ []) levels = add_bounds (trim lower) none levels
  add_boundaries (lower ∷ upper ∷ more) levels = elim (parse_int (trim_space upper)) [
    | none ↦ none
    | some up ↦ add_bounds (trim lower) (some up) levels
  ]

  unfoldable pub add_parts : List Bytes → List ℕ → Option (List ℕ)
  unfolding add_boundaries
  add_parts [] levels = some levels
  add_parts (part ∷ parts) levels = elim (add_boundaries (split b'-' (trim_space part)) levels) [
    | none ↦ none
    | some more ↦ add_parts parts more
  ]

  -- func Expand; `none` for an error
  unfoldable pub expand : Bytes → Option (List ℕ)
  unfolding add_parts sorted_levels
  expand s = elim (add_parts (split b',' s) []) [
    | none ↦ none
    | some levels ↦ some (sorted_levels levels)
  ]
