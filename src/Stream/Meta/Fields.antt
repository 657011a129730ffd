-- ===== src/Stream/Meta/Fields.antt =====
-- What the accessors of a `Meta` (base/stream/message.go) read back.
use Prim.Native.Nat.{bit_and, bit_or, bit_and-bitwise}
use debug_bootstrap.Prelude.{
  ℕ, zero, suc, ◌*◌, ◌/◌, ◌%◌, ◌^◌, ◌<◌, ◌≡◌, refl, sym, ap, ◌∙◌, Bool, true, false, not, ◌||◌,
  List, [], ◌∷◌, All, arith, nat_beq,
}
use mathlib.Core.Bool.{or_assoc}
use native.Mathlib.Nat.{mod-eq_of_lt}
use debug_bootstrap.Prelude.Bits.{
  bit_or-shift, bit_or-mod, bit_or-zero, bit_or-zero_left, bit_and-bit_or, le-bit_or, bit_and_step,
  bit_and-zero,
}
use debug_bootstrap.Stream.Meta.{
  Flag, Meta, add_flags, new_meta, new_meta_with_code, level, is, set, code, base,
  exit_success_flag, exit_error_flag,
}

-- A flag fits the lowest 16 bits.
abbrev pub IsFlag : Flag → Type 0
IsFlag f = f < 2 ^ 16

-- `|` with a word below 2 ^ k leaves what stands above.
or_keeps_high : (k m f : ℕ) → f / 2 ^ k ≡ 0 → bit_or m f / 2 ^ k ≡ m / 2 ^ k
or_keeps_high k m f h = rw (bit_or-shift k m f, h) (bit_or-zero (m / 2 ^ k))

high-add_flags : (m : ℕ) (fs : List Flag) → All IsFlag fs → add_flags m fs / 2 ^ 16 ≡ m / 2 ^ 16
unfolding add_flags
high-add_flags m [] h = refl
high-add_flags m (f ∷ fs) h =
    high-add_flags (bit_or m f) fs h.1 ∙ or_keeps_high 16 m f (omega (arith, h.0))

high-new_meta : (l : ℕ) (fs : List Flag) → l < 2 ^ 16 → All IsFlag fs → new_meta l fs / 2 ^ 16 ≡ l
unfolding new_meta
high-new_meta l fs hl h = omega (arith, high-add_flags (l * 2 ^ 16 % 2 ^ 32) fs h)

-- Is one of the flags among the bits of `g`?
abbrev pub overlap : Flag → Flag → Bool
overlap f g = not (nat_beq (bit_and f g) 0)

abbrev pub any_overlap : List Flag → Flag → Bool
any_overlap [] g = false
any_overlap (f ∷ fs) g = overlap f g || any_overlap fs g

or-nonzero : (a b : ℕ) → not (nat_beq (bit_or a b) 0) ≡ (not (nat_beq a 0) || not (nat_beq b 0))
or-nonzero zero b = rw (bit_or-zero_left b) refl
or-nonzero (suc a) b = ground (arith, le-bit_or (suc a) b)

is-bit_or :
    (m : Meta) (f g : Flag) → IsFlag f → IsFlag g → is (bit_or m f) g ≡ (is m g || overlap f g)
unfolding is
is-bit_or m f g hf hg =
    rw
      (
        bit_or-mod 16 m f,
        mod-eq_of_lt {n = f} hf,
        mod-eq_of_lt {n = g} hg,
        bit_and-bit_or (m % 2 ^ 16) f g,
      )
      (or-nonzero (bit_and (m % 2 ^ 16) g) (bit_and f g))

or_false : (b : Bool) → (b || false) ≡ b
or_false true = refl
or_false false = refl

is-add_flags :
    (m : Meta) (fs : List Flag) (g : Flag)
    → All IsFlag fs
    → IsFlag g
    → is (add_flags m fs) g ≡ (is m g || any_overlap fs g)
unfolding add_flags
is-add_flags m [] g h hg = sym (or_false (is m g))
is-add_flags m (f ∷ fs) g h hg =
    is-add_flags (bit_or m f) fs g h.1 hg
    ∙ ap (λ b. b || any_overlap fs g) (is-bit_or m f g h.0 hg)
    ∙ or_assoc (is m g) (overlap f g) (any_overlap fs g)

level_has_no_flag : (l : ℕ) (g : Flag) → is (l * 2 ^ 16 % 2 ^ 32) g ≡ false
unfolding is
level_has_no_flag l g =
    let low : l * 2 ^ 16 % 2 ^ 32 % 2 ^ 16 ≡ 0 = omega arith in
    rw (low, bit_and-bitwise 0 (g % 2 ^ 16))

is-new_meta :
    (l : ℕ) (fs : List Flag) (g : Flag)
    → All IsFlag fs
    → IsFlag g
    → is (new_meta l fs) g ≡ any_overlap fs g
unfolding new_meta
is-new_meta l fs g h hg =
    is-add_flags (l * 2 ^ 16 % 2 ^ 32) fs g h hg
    ∙ ap (λ b. b || any_overlap fs g) (level_has_no_flag l g)

-- Above a word of 32 bits stands the code alone.
low-new_meta_with_code :
    (c l : ℕ) (fs : List Flag)
    → c < 2 ^ 32
    → l < 2 ^ 16
    → All IsFlag fs
    → new_meta_with_code c l fs % 2 ^ 32 ≡ new_meta l fs
unfolding new_meta_with_code
low-new_meta_with_code c l fs hc hl h =
    let upper : c * 2 ^ 32 % 2 ^ 64 % 2 ^ 32 ≡ 0 = omega arith in
    let small : new_meta l fs % 2 ^ 32 ≡ new_meta l fs = omega (arith, high-new_meta l fs hl h) in
    rw (bit_or-mod 32 (c * 2 ^ 32 % 2 ^ 64) (new_meta l fs), upper, small)
      (bit_or-zero_left (new_meta l fs))

high-new_meta_with_code :
    (c l : ℕ) (fs : List Flag)
    → c < 2 ^ 32
    → l < 2 ^ 16
    → All IsFlag fs
    → new_meta_with_code c l fs / 2 ^ 32 ≡ c
unfolding new_meta_with_code
high-new_meta_with_code c l fs hc hl h = omega (
  arith,
  or_keeps_high 32 (c * 2 ^ 32 % 2 ^ 64) (new_meta l fs) (omega (arith, high-new_meta l fs hl h)),
)

is_of_low : (m n : Meta) (g : Flag) → m % 2 ^ 16 ≡ n % 2 ^ 16 → is m g ≡ is n g
unfolding is
is_of_low m n g h = rw h

-- Setting a flag shows that flag on top of those that were set, and nothing else of the word
-- changes: its code and its level stay.
pub set_fields :
    (m : Meta) (f g : Flag)
    → IsFlag f
    → IsFlag g
    → (is (set m f) g ≡ (is m g || overlap f g))
      × (level (set m f) ≡ level m)
      × (code (set m f) ≡ code m)
unfolding level code set
set_fields m f g hf hg = (
  is-bit_or m f g hf hg,
  omega (arith, or_keeps_high 16 m f (omega arith)),
  omega (arith, or_keeps_high 32 m f (omega arith)),
)

-- The word for an exit code, a level and flags reads back as just these: its code, its level and
-- its flags are those given, and without its code it is the word for the level and the flags.
pub decode-new_meta_with_code :
    (c l : ℕ) (fs : List Flag) (g : Flag)
    → c < 2 ^ 32
    → l < 2 ^ 16
    → All IsFlag fs
    → IsFlag g
    → let m = new_meta_with_code c l fs in
      (code m ≡ c) × (level m ≡ l) × (is m g ≡ any_overlap fs g) × (base m ≡ new_meta l fs)
unfolding code level base
decode-new_meta_with_code c l fs g hc hl h hg =
    let low = low-new_meta_with_code c l fs hc hl h in
    let high = high-new_meta l fs hl h in
    (
      omega (arith, high-new_meta_with_code c l fs hc hl h),
      omega (arith, low, high),
      is_of_low (new_meta_with_code c l fs) (new_meta l fs) g (omega (arith, low))
          ∙ is-new_meta l fs g h hg,
      low,
    )

-- The test for either exit flag passes where the test for the first one does.
pub is-either :
    (m : Meta)
    → is m exit_success_flag ≡ true
    → is m (bit_or exit_success_flag exit_error_flag) ≡ true
unfolding is
is-either m h =
    let x = m % 2 ^ 16 in
    ground (
      arith,
      h,
      bit_and_step x 2,
      bit_and_step (x / 2) 1,
      bit_and-zero (x / 2 / 2),
      bit_and_step x 6,
      bit_and_step (x / 2) 3,
    )

pub is-base : (m : Meta) (f : Flag) → is (base m) f ≡ is m f
unfolding base
is-base m f = is_of_low (m % 2 ^ 32) m f (omega arith)
