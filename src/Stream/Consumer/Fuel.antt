-- ===== src/Stream/Consumer/Fuel.antt =====
-- base/stream/input.go: the loop over a buffer ends within as many turns as there are bytes.
use debug_bootstrap.Stream.Meta.{Message}
use debug_bootstrap.Prelude.{
  ℕ, zero, suc, ◌+◌, ◌-◌, ◌*◌, ◌≤◌, ◌<◌, min, ◌&&◌, Option, none, some, List, [], ◌∷◌, Bytes, ◌≡◌,
  refl, ap, length, nat_beq, append-nil, ◌⊎◌, is_digit, has_prefix, length-drop, arith, inl, inr,
  Bool-cases, Option-cases,
}
use debug_bootstrap.Stream.Consumer.Pattern.{Header, colons, digits, find_header}
use debug_bootstrap.Stream.Consumer.{
  Consumer, cut_at, newline_or_eof, multi_line_term, flush, single_line, multi_line, turn, Turn,
  goes, leaves, emit, scan,
}

-- What stands behind a header is shorter than the text.
abbrev Behind : ℕ → Option Header → Type 0
Behind n none = Unit
Behind n (some h) = length h.rest < n

colons-Behind : (level : ℕ) (s : Bytes) → Behind (length s) (colons level s)
unfolding colons
colons-Behind level [] = tt
colons-Behind level (c ∷ []) = tt
colons-Behind level (c ∷ d ∷ []) = elim (Bool-cases (nat_beq c b':' && nat_beq d b':')) [
  | inl p ↦ rw p (omega arith)
  | inr p ↦ rw p tt
]
colons-Behind level (c ∷ d ∷ e ∷ s) = elim (Bool-cases (nat_beq c b':' && nat_beq d b':')) [
  | inr p ↦ rw p tt
  | inl p ↦ elim (Bool-cases (nat_beq e b':')) [
    | inl q ↦ rw (p, q) (omega arith)
    | inr q ↦ rw (p, q) (omega arith)
  ]
]

Behind-weaken : (n m : ℕ) (o : Option Header) → n ≤ m → Behind n o → Behind m o
Behind-weaken n m none p h = tt
Behind-weaken n m (some h) p b = omega arith

digits-Behind : (n : ℕ) (s : Bytes) → Behind (length s) (digits n s)
unfolding digits
digits-Behind n [] = tt
digits-Behind n (c ∷ s) = elim (Bool-cases (is_digit c)) [
  | inl p ↦ rw p (
      Behind-weaken (length s) (suc (length s)) (digits (n * 10 + (c - b'0')) s) (omega arith)
        (digits-Behind (n * 10 + (c - b'0')) s))
  | inr p ↦ rw p (colons-Behind (min n 65535) (c ∷ s))
]

find_header-Behind : (s : Bytes) → Behind (length s) (find_header s)
unfolding find_header
find_header-Behind [] = tt
find_header-Behind (c ∷ s) = elim (Bool-cases (is_digit c)) [
  | inl p ↦ rw p (
      Behind-weaken (length s) (suc (length s)) (digits (c - b'0') s) (omega arith)
        (digits-Behind (c - b'0') s))
  | inr p ↦ rw p tt
]

abbrev Cut : ℕ → Option (Bytes × Bytes) → Type 0
Cut n none = Unit
Cut n (some (before, behind)) = length behind ≤ n

cut_at-Cut : (sep s : Bytes) → Cut (length s) (cut_at sep s)
unfolding cut_at
cut_at-Cut sep [] = tt
cut_at-Cut sep (c ∷ s) = elim (Bool-cases (has_prefix (c ∷ s) sep)) [
  | inl p ↦ rw (cut_at, p) (omega (arith, length-drop (length sep) (c ∷ s)))
  | inr p ↦ elim (Option-cases (cut_at sep s)) [
    | inl q ↦ rw (cut_at, p, q) tt
    | inr (parts, q) ↦
        let shorter : length parts.1 ≤ length s = rw q at (cut_at-Cut sep s) in
        rw (cut_at, p, q) (omega arith)
  ]
]

-- A turn that goes on leaves less than there was.
abbrev Leaves : ℕ → Turn → Type 0
Leaves n (goes said held behind) = length behind ≤ n
Leaves n (leaves said c) = Unit

multi_line-Leaves :
    (c : Consumer) (flushed : List Message) (level n : ℕ) (text : Bytes)
    → length text ≤ n
    → Leaves n (multi_line c flushed level text)
unfolding multi_line
multi_line-Leaves c flushed level n text h = elim (Option-cases (cut_at multi_line_term text)) [
  | inl q ↦ rw (multi_line, q) tt
  | inr (parts, q) ↦
      let shorter : length parts.1 ≤ length text = rw q at (cut_at-Cut multi_line_term text) in
      rw (multi_line, q) (omega (arith, length-drop 1 parts.1))
]

turn-Leaves :
    (c : Consumer) (pending : Bytes) (x : ℕ) (rest : Bytes)
    → Leaves (length rest) (turn c pending (x ∷ rest))
unfolding turn single_line
turn-Leaves c pending x rest = elim (Option-cases (find_header (x ∷ rest))) [
  | inl p ↦ rw (turn, p) (omega (arith, length-drop (newline_or_eof (x ∷ rest) + 1) (x ∷ rest)))
  | inr (h, p) ↦
      let shorter : length h.rest < suc (length rest) = rw p at (find_header-Behind (x ∷ rest)) in
      elim (Bool-cases h.multiline) [
        | inl m ↦
            rw (turn, p, m)
              (multi_line-Leaves c (flush c.level pending) h.level (length rest) h.rest
                (omega arith))
        | inr m ↦ rw (turn, p, m) (omega (arith, length-drop (newline_or_eof h.rest + 1) h.rest))
      ]
]

Turn-cases :
    (t : Turn)
    → ((said : List Message) × (held : Bytes) × (behind : Bytes) × (t ≡ goes said held behind))
      ⊎ ((said : List Message) × (c : Consumer) × (t ≡ leaves said c))
Turn-cases (goes said held behind) = inl (said, held, behind, refl)
Turn-cases (leaves said c) = inr (said, c, refl)

-- Fuel for as many turns as there are bytes is enough: more of it changes nothing.
pub scan_enough :
    (n m : ℕ) (c : Consumer) (pending rest : Bytes)
    → length rest ≤ n
    → n ≤ m
    → scan n c pending rest ≡ scan m c pending rest
unfolding scan
scan_enough zero zero c pending rest h p = refl
scan_enough zero (suc m) c pending [] h p = rw (append-nil pending) refl
scan_enough zero (suc m) c pending (x ∷ rest) h p = absurd (omega arith)
scan_enough (suc n) zero c pending rest h p = absurd (omega arith)
scan_enough (suc n) (suc m) c pending [] h p = refl
scan_enough (suc n) (suc m) c pending (x ∷ rest) h p =
    elim (Turn-cases (turn c pending (x ∷ rest))) [
      | inr (said, d, e) ↦ rw (scan, e) refl
      | inl (said, held, behind, e) ↦
          let shorter : length behind ≤ length rest = rw e at (turn-Leaves c pending x rest) in
          rw (scan, e) (ap (emit said) (scan_enough n m c held behind (omega arith) (omega arith)))
    ]
