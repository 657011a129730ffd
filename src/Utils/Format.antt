-- ===== src/Utils/Format.antt =====
-- Format of base/utils/utils.go: the occurrences of {key} in a text, for the expression \{[^}]+}. A
-- match begins at the first brace, and goes on to the next closing one.
pub mod Template
use debug_bootstrap.Prelude.{
  ℕ, Bool, true, false, Option, none, some, List, [], ◌∷◌, ◌++◌, Bytes, bytes_equal, nat_beq,
  if◌then◌else◌,
}

-- strings.TrimLeft(m, "{")
unfoldable pub trim_left_brace : Bytes → Bytes
trim_left_brace [] = []
trim_left_brace (c ∷ s) = let rest = trim_left_brace s in if nat_beq c b'{' then rest else c ∷ s

module _ (values : Bytes → Option Bytes) where
  -- The function that replaces a match: `inner` is what stands between the braces, and holds no
  -- closing one.
  unfoldable pub replaced : Bytes → Bytes
  unfolding trim_left_brace
  replaced inner = elim (values (trim_left_brace inner)) [
    | none ↦ b'{' ∷ inner ++ b'}' ∷ []
    | some value ↦ value
  ]

  -- `none` outside of a match, and what was read since its brace inside of one
  unfoldable pub format_from : Option Bytes → Bytes → Bytes
  unfolding replaced
  format_from none [] = []
  format_from (some inner) [] = b'{' ∷ inner
  format_from none (c ∷ s) =
      let outside = format_from none s in
      let inside = format_from (some []) s in if nat_beq c b'{' then inside else c ∷ outside
  format_from (some []) (c ∷ s) =
      let outside = format_from none s in
      let inside = format_from (some (c ∷ [])) s in
      if nat_beq c b'}' then b'{' ∷ b'}' ∷ outside else inside
  format_from (some (i ∷ inner)) (c ∷ s) =
      let outside = format_from none s in
      let inside = format_from (some (i ∷ inner ++ c ∷ [])) s in
      if nat_beq c b'}' then replaced (i ∷ inner) ++ outside else inside

  -- func Format
  unfoldable pub format : Bytes → Bytes
  unfolding format_from
  format pattern = format_from none pattern
