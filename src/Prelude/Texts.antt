-- ===== src/Prelude/Texts.antt =====
-- Go's operations on texts that the parts share, on lists of bytes.
use Prim.Native.Nat.{ℕ}
use mathlib.Core.Path.{◌≡◌, refl, ap}
use mathlib.Core.Logic.{inl, inr}
use mathlib.Core.Bool.{Bool, true, false, ◌&&◌}
use mathlib.Core.Option.{Option, none, some}
use mathlib.Core.List.{List, [], ◌∷◌, ◌++◌}
use native.Mathlib.Omega.{arith}
use debug_bootstrap.Prelude.Tests.{Bytes, nat_beq, leb, if◌then◌else◌, Bool-cases}
use debug_bootstrap.Prelude.Lists.{All}

-- strings.SplitN(s, sep, 2) for a separator of one byte: what stands before the first one, and
-- behind it, if there is one
unfoldable pub split_two : ℕ → Bytes → Bytes × Option Bytes
split_two sep [] = ([], none)
split_two sep (c ∷ s) =
    let (first, rest) = split_two sep s in if nat_beq c sep then ([], some s) else (c ∷ first, rest)

-- A byte before the first part.
unfoldable pub split_cons : ℕ → List Bytes → List Bytes
split_cons c [] = (c ∷ []) ∷ []
split_cons c (part ∷ parts) = (c ∷ part) ∷ parts

-- strings.Split(s, sep)
unfoldable pub split : ℕ → Bytes → List Bytes
unfolding split_cons
split sep [] = [] ∷ []
split sep (c ∷ s) =
    let parts = split sep s in if nat_beq c sep then [] ∷ parts else split_cons c parts

-- strings.HasPrefix(s, prefix)
unfoldable pub has_prefix : Bytes → Bytes → Bool
has_prefix s [] = true
has_prefix [] (p ∷ prefix) = false
has_prefix (c ∷ s) (p ∷ prefix) = if nat_beq c p then has_prefix s prefix else false

-- the class \d of a regular expression
unfoldable pub is_digit : ℕ → Bool
is_digit c = leb b'0' c && leb c b'9'

-- The byte stands nowhere in the text.
abbrev pub IsFreeOf : ℕ → Bytes → Type 0
IsFreeOf sep w = All (λ c. nat_beq c sep ≡ false) w

pub split-none : (sep : ℕ) (w : Bytes) → IsFreeOf sep w → split sep w ≡ w ∷ []
unfolding split
split-none sep [] h = refl
split-none sep (c ∷ w) h = rw (h.0, split-none sep w h.1, split_cons) refl

pub split-append :
    (sep : ℕ) (w s : Bytes) → IsFreeOf sep w → split sep (w ++ sep ∷ s) ≡ w ∷ split sep s
unfolding split
split-append sep [] s h = ground arith
split-append sep (c ∷ w) s h = rw (h.0, split-append sep w s h.1, split_cons) refl

pub split_two-append :
    (sep : ℕ) (w s : Bytes) → IsFreeOf sep w → split_two sep (w ++ sep ∷ s) ≡ (w, some s)
unfolding split_two
split_two-append sep [] s h = ground arith
split_two-append sep (c ∷ w) s h = rw (h.0, split_two-append sep w s h.1) refl

-- Where there is a separator, what stands before it is free of it.
pub split_two-some :
    (sep : ℕ) (s r : Bytes)
    → (split_two sep s).1 ≡ some r
    → (s ≡ (split_two sep s).0 ++ sep ∷ r) × IsFreeOf sep (split_two sep s).0
unfolding split_two
split_two-some sep [] r h = absurd cc
split_two-some sep (c ∷ s) r h = elim (Bool-cases (nat_beq c sep)) [
  | inl at ↦ let first : some s ≡ some r = rw at at h in rw at (ground (arith, at, first), tt)
  | inr other ↦
      let (same, free) = split_two-some sep s r (rw other at h) in
      rw other (ap (◌∷◌ c) same, (other, free))
]
