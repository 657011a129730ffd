-- ===== src/Stream/Consumer/Pattern.antt =====
-- base/stream/input.go: the header of a line, <level>:: or <level>:::
use debug_bootstrap.Prelude.{
  ℕ, ◌+◌, ◌-◌, ◌*◌, min, Bool, true, false, ◌&&◌, Option, none, some, [], ◌∷◌, Bytes, nat_beq,
  is_digit, if◌then◌else◌,
}

-- type header struct, with the text behind the header
pub record Header : Type 0 where
  pub level : ℕ
  pub multiline : Bool
  pub rest : Bytes

-- (:{2,3}) : three colons where there are three
unfoldable pub colons : ℕ → Bytes → Option Header
colons level (c ∷ d ∷ e ∷ s) =
    if nat_beq c b':' && nat_beq d b':'
    then (if nat_beq e b':'
        then some (record { level = level; multiline = true; rest = s })
        else some (record { level = level; multiline = false; rest = e ∷ s }))
    else none
colons level (c ∷ d ∷ []) =
    if nat_beq c b':' && nat_beq d b':'
    then some (record { level = level; multiline = false; rest = [] })
    else none
colons level (c ∷ []) = none
colons level [] = none

-- The digits of (\d+) behind the first, with the value of those before. ParseUint gives the largest
-- word for a number that does not fit 16 bits; its error is ignored.
unfoldable pub digits : ℕ → Bytes → Option Header
unfolding is_digit colons
digits n [] = none
digits n (c ∷ s) =
    let more = digits (n * 10 + (c - b'0')) s in
    if is_digit c then more else colons (min n 65535) (c ∷ s)

-- headerPattern.FindSubmatch, and getHeaderFromMatch
unfoldable pub find_header : Bytes → Option Header
unfolding is_digit digits
find_header [] = none
find_header (c ∷ s) = if is_digit c then digits (c - b'0') s else none
