-- ===== src/Prelude/Bits.antt =====
-- Go's `|` and `&` on unsigned words, digit by digit: what a shift or a mask sees of them.
use Prim.Native.Nat.{
  ℕ, zero, suc, ◌+◌, ◌*◌, ◌/◌, ◌%◌, ◌^◌, ◌≤◌, min, max, bit_and, bit_or, digits, bit_and-bitwise,
  bit_or-bitwise,
}
use mathlib.Core.Path.{◌≡◌, refl, sym}
use native.Mathlib.Nat.{pow-succ', mod-one, mul_assoc, div-add-mod, div-one, div-div-eq-div-mul}
use native.Mathlib.Omega.{arith}

-- More fuel than the first word needs changes no digit.
digits_enough :
    (z : ℕ → ℕ) (f : ℕ → ℕ → ℕ) (n m a b : ℕ) → a ≤ n → a ≤ m → digits z f n a b ≡ digits z f m a b
digits_enough z f zero m (suc a) b p q = absurd (omega arith)
digits_enough z f (suc n) zero (suc a) b p q = absurd (omega arith)
digits_enough z f zero zero zero b p q = refl
digits_enough z f zero (suc m) zero b p q = refl
digits_enough z f (suc n) zero zero b p q = refl
digits_enough z f (suc n) (suc m) zero b p q = refl
digits_enough z f (suc n) (suc m) (suc a) b p q =
    let higher = digits_enough z f n m (suc a / 2) (b / 2) (omega arith) (omega arith) in
    omega (arith, higher)

pub bit_or_step : (a b : ℕ) → bit_or a b ≡ bit_or (a / 2) (b / 2) * 2 + max (a % 2) (b % 2)
bit_or_step zero b = omega (arith, bit_or-bitwise 0 b, bit_or-bitwise 0 (b / 2))
bit_or_step (suc a) b =
    let half = suc a / 2 in
    omega (
      arith,
      bit_or-bitwise (suc a) b,
      bit_or-bitwise half (b / 2),
      digits_enough (λ b. b) max a half half (b / 2) (omega arith) (omega arith),
    )

pub bit_and_step : (a b : ℕ) → bit_and a b ≡ bit_and (a / 2) (b / 2) * 2 + min (a % 2) (b % 2)
bit_and_step zero b = omega (arith, bit_and-bitwise 0 b, bit_and-bitwise 0 (b / 2))
bit_and_step (suc a) b =
    let half = suc a / 2 in
    omega (
      arith,
      bit_and-bitwise (suc a) b,
      bit_and-bitwise half (b / 2),
      digits_enough (λ b. 0) min a half half (b / 2) (omega arith) (omega arith),
    )

or_half : (a b : ℕ) → bit_or a b / 2 ≡ bit_or (a / 2) (b / 2)
or_half a b = omega (arith, bit_or_step a b)

and_half : (a b : ℕ) → bit_and a b / 2 ≡ bit_and (a / 2) (b / 2)
and_half a b = omega (arith, bit_and_step a b)

-- Both words are halved until the bound `n` on them is used up.
or_zero_below : (n a : ℕ) → a ≤ n → bit_or a 0 ≡ a
or_zero_below n zero h = refl
or_zero_below zero (suc a) h = absurd (omega arith)
or_zero_below (suc n) (suc a) h =
    omega (arith, bit_or_step (suc a) 0, or_zero_below n (suc a / 2) (omega arith))

pub bit_or-zero : (a : ℕ) → bit_or a 0 ≡ a
bit_or-zero a = or_zero_below a a (omega arith)

pub bit_or-zero_left : (b : ℕ) → bit_or 0 b ≡ b
bit_or-zero_left b = bit_or-bitwise 0 b

and_zero_below : (n a : ℕ) → a ≤ n → bit_and a 0 ≡ 0
and_zero_below n zero h = refl
and_zero_below zero (suc a) h = absurd (omega arith)
and_zero_below (suc n) (suc a) h =
    omega (arith, bit_and_step (suc a) 0, and_zero_below n (suc a / 2) (omega arith))

pub bit_and-zero : (a : ℕ) → bit_and a 0 ≡ 0
bit_and-zero a = and_zero_below a a (omega arith)

and_or_below :
    (n a b c : ℕ) → a ≤ n → b ≤ n → bit_and (bit_or a b) c ≡ bit_or (bit_and a c) (bit_and b c)
and_or_below n zero zero c p q =
    rw (bit_or-zero_left 0) (sym (rw (bit_and-bitwise 0 c, bit_or-zero_left 0)))
and_or_below zero zero (suc b) c p q = absurd (omega arith)
and_or_below zero (suc a) b c p q = absurd (omega arith)
and_or_below (suc n) a b c p q =
    let high : bit_and (bit_or a b / 2) (c / 2) ≡ bit_or (bit_and a c / 2) (bit_and b c / 2) =
      rw (or_half a b, and_half a c, and_half b c)
        (and_or_below n (a / 2) (b / 2) (c / 2) (omega arith) (omega arith)) in
    omega (
      arith,
      bit_or_step a b,
      bit_and_step (bit_or a b) c,
      bit_and_step a c,
      bit_and_step b c,
      bit_or_step (bit_and a c) (bit_and b c),
      high,
    )

-- `&` distributes over `|`.
pub bit_and-bit_or : (a b c : ℕ) → bit_and (bit_or a b) c ≡ bit_or (bit_and a c) (bit_and b c)
bit_and-bit_or a b c = and_or_below (a + b) a b c (omega arith) (omega arith)

-- A word is empty only if both that made it were.
bit_or_lower : (n a b : ℕ) → a ≤ n → a ≤ bit_or a b
bit_or_lower n zero b h = omega arith
bit_or_lower zero (suc a) b h = absurd (omega arith)
bit_or_lower (suc n) (suc a) b h =
    omega (arith, bit_or_step (suc a) b, bit_or_lower n (suc a / 2) (b / 2) (omega arith))

pub le-bit_or : (a b : ℕ) → a ≤ bit_or a b
le-bit_or a b = bit_or_lower a a b (omega arith)

-- x >> (k + 1) is (x >> 1) >> k, and likewise for the low bits.
shift_suc : (x k : ℕ) → x / 2 ^ suc k ≡ x / 2 / 2 ^ k
shift_suc x k = rw (pow-succ' 2 k, div-div-eq-div-mul x 2 (2 ^ k))

pub bit_or-shift : (k a b : ℕ) → bit_or a b / 2 ^ k ≡ bit_or (a / 2 ^ k) (b / 2 ^ k)
bit_or-shift zero a b = rw (div-one (bit_or a b), div-one a, div-one b)
bit_or-shift (suc k) a b =
    rw (shift_suc (bit_or a b) k, shift_suc a k, shift_suc b k, or_half a b)
      (bit_or-shift k (a / 2) (b / 2))

mod_suc : (x k : ℕ) → x % 2 ^ suc k ≡ x / 2 % 2 ^ k * 2 + x % 2
mod_suc x k =
    let double : 2 ^ suc k * (x / 2 ^ suc k) ≡ 2 * (2 ^ k * (x / 2 / 2 ^ k)) =
      rw (shift_suc x k, pow-succ' 2 k) (mul_assoc 2 (2 ^ k) (x / 2 / 2 ^ k)) in
    omega (arith, div-add-mod x (2 ^ suc k), div-add-mod (x / 2) (2 ^ k), double)

pub bit_or-mod : (k a b : ℕ) → bit_or a b % 2 ^ k ≡ bit_or (a % 2 ^ k) (b % 2 ^ k)
bit_or-mod zero a b = rw (mod-one (bit_or a b), mod-one a, mod-one b) (sym (bit_or-zero_left 0))
bit_or-mod (suc k) a b =
    let low : (x : ℕ) → x % 2 ^ suc k / 2 ≡ x / 2 % 2 ^ k = λ x. omega (arith, mod_suc x k) in
    let high : bit_or (a % 2 ^ suc k / 2) (b % 2 ^ suc k / 2) ≡ bit_or a b / 2 % 2 ^ k =
      rw (low a, low b, or_half a b) (sym (bit_or-mod k (a / 2) (b / 2))) in
    omega (
      arith,
      mod_suc (bit_or a b) k,
      mod_suc a k,
      mod_suc b k,
      bit_or_step a b,
      bit_or_step (a % 2 ^ suc k) (b % 2 ^ suc k),
      high,
    )
