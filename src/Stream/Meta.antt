-- ===== src/Stream/Meta.antt =====
-- base/stream/message.go. A `Meta` is a uint64: the exit code in its upper 32 bits, the level in
-- the 16 bits below, the flags in the lowest 16. A cast to a smaller word, and a mask of ones, is
-- a remainder; a shift is a product or a quotient.
pub mod Fields
use Prim.Native.Nat.{bit_and, bit_or}
use debug_bootstrap.Prelude.{
  ℕ, ◌*◌, ◌/◌, ◌%◌, ◌^◌, Bool, true, false, not, List, [], ◌∷◌, Bytes, nat_beq, if◌then◌else◌,
}

-- type Flag uint16: one bit each, by `1 << iota`
abbrev pub Flag : Type 0
Flag = ℕ

abbrev pub stream_flag : Flag
stream_flag = 1

abbrev pub exit_success_flag : Flag
exit_success_flag = 2

abbrev pub exit_error_flag : Flag
exit_error_flag = 4

-- type Meta uint64
abbrev pub Meta : Type 0
Meta = ℕ

-- the loop `m |= uint32(f)`
unfoldable pub add_flags : ℕ → List Flag → ℕ
add_flags m [] = m
add_flags m (f ∷ fs) = add_flags (bit_or m f) fs

unfoldable pub new_meta : ℕ → List Flag → Meta
new_meta level flags = add_flags (level * 2 ^ 16 % 2 ^ 32) flags

unfoldable pub new_meta_with_code : ℕ → ℕ → List Flag → Meta
new_meta_with_code code level flags = bit_or (code * 2 ^ 32 % 2 ^ 64) (new_meta level flags)

unfoldable pub level : Meta → ℕ
level m = m / 2 ^ 16 % 2 ^ 16

any_level : ℕ → List ℕ → Bool
any_level l [] = false
any_level l (lv ∷ rest) = if nat_beq l lv then true else any_level l rest

unfoldable pub assert : Meta → List ℕ → Bool
unfolding any_level
assert m levels = any_level (m / 2 ^ 16 % 2 ^ 16) levels

unfoldable pub is : Meta → Flag → Bool
is m flag = not (nat_beq (bit_and (m % 2 ^ 16) (flag % 2 ^ 16)) 0)

unfoldable pub set : Meta → Flag → Meta
set m flag = bit_or m flag

unfoldable pub code : Meta → ℕ
code m = m / 2 ^ 32 % 2 ^ 32

unfoldable pub base : Meta → Meta
base m = m % 2 ^ 32

-- Times are nanoseconds since 1970.
pub record Message : Type 0 where
  pub message : Bytes
  pub epoch : ℕ
  pub meta : Meta
