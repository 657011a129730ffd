-- ===== src/Stream/Consumer/Newline.antt =====
-- base/stream/input.go: what a newline ends.
use native.Mathlib.Nat.{suc-add}
use debug_bootstrap.Stream.Meta.{Message}
use debug_bootstrap.Prelude.{
  ℕ, zero, suc, ◌+◌, ◌-◌, ◌*◌, ◌≤◌, min, true, false, ◌&&◌, none, some, List, [], ◌∷◌, ◌++◌, Bytes,
  ◌≡◌, refl, ap, ◌∙◌, length, take, drop, leb, nat_beq, IsFreeOf, length-append, arith,
  if◌then◌else◌,
}
use debug_bootstrap.Stream.Consumer.Pattern.{colons, digits, find_header}
use debug_bootstrap.Stream.Consumer.{
  say, is_continuation, all_continue, rune_tail, sequence_length, lowest_second, highest_second,
  one_more, index_or, range_stop, newline_or_eof, single_line, goes,
}

-- No byte of a rune behind its first is a newline.
tail_of :
    (n lo hi d : ℕ) (s : Bytes)
    → leb 128 lo ≡ true
    → leb hi 191 ≡ true
    → all_continue
        (if leb 2 n && (leb lo d && leb d hi) && all_continue (n - 2) s then n - 1 else 0)
        (d ∷ s)
      ≡ true
unfolding all_continue is_continuation
tail_of zero lo hi d s p q = ground arith
tail_of (suc zero) lo hi d s p q = ground arith
tail_of (suc (suc n)) lo hi d s p q = ground arith

lowest_second_ge : (c : ℕ) → leb 128 (lowest_second c) ≡ true
unfolding lowest_second
lowest_second_ge c = ground arith

highest_second_le : (c : ℕ) → leb (highest_second c) 191 ≡ true
unfolding highest_second
highest_second_le c = ground arith

rune_tail-all_continue : (c : ℕ) (s : Bytes) → all_continue (rune_tail c s) s ≡ true
unfolding rune_tail all_continue
rune_tail-all_continue c [] = refl
rune_tail-all_continue c (d ∷ s) =
    tail_of (sequence_length c) (lowest_second c) (highest_second c) d s (lowest_second_ge c)
      (highest_second_le c)

range_stop-newline :
    (k : ℕ) (w s : Bytes)
    → IsFreeOf b'\n' w
    → all_continue k (w ++ b'\n' ∷ s) ≡ true
    → range_stop k (w ++ b'\n' ∷ s) ≡ some (length w)
unfolding range_stop one_more index_or all_continue is_continuation
range_stop-newline zero [] s h a = refl
range_stop-newline (suc k) [] s h a = ground arith
range_stop-newline (suc k) (c ∷ w) s h a =
    rw (range_stop-newline k w s h.1 (ground arith), one_more) refl
range_stop-newline zero (c ∷ w) s h a =
    let rest = w ++ b'\n' ∷ s in
    let further = range_stop-newline (rune_tail c rest) w s h.1 (rune_tail-all_continue c rest) in
    rw (h.0, further, one_more, index_or) refl

newline_or_eof-line :
    (w s : Bytes)
    → IsFreeOf b'\n' w
    → newline_or_eof (w ++ b'\n' ∷ s)
      ≡ (if nat_beq (length w + 1) (length (w ++ b'\n' ∷ s)) then length w + 1 else length w)
unfolding newline_or_eof index_or
newline_or_eof-line w s h = rw (range_stop-newline 0 w s h refl, index_or) refl

-- The text up to and with the newline, and the text behind it.
take-line : (w s : Bytes) → take (length w + 1) (w ++ b'\n' ∷ s) ≡ w ++ b'\n' ∷ []
take-line [] s = refl
take-line (c ∷ w) s = rw suc-add (ap (◌∷◌ c) (take-line w s))

drop-line : (w s : Bytes) → drop (length w + 1) (w ++ b'\n' ∷ s) ≡ s
drop-line [] s = refl
drop-line (c ∷ w) s = rw suc-add (drop-line w s)

take_over : (n : ℕ) (s : Bytes) → length s ≤ n → take n s ≡ s
take_over zero [] h = refl
take_over (suc n) [] h = refl
take_over zero (c ∷ s) h = absurd (omega arith)
take_over (suc n) (c ∷ s) h = ap (◌∷◌ c) (take_over n s (omega arith))

drop_over : (n : ℕ) (s : Bytes) → length s ≤ n → drop n s ≡ []
drop_over zero [] h = refl
drop_over (suc n) [] h = refl
drop_over zero (c ∷ s) h = absurd (omega arith)
drop_over (suc n) (c ∷ s) h = drop_over n s (omega arith)

-- One place behind the newline, in the two cases of `newline_or_eof`.
newline_or_eof-last :
    (w : Bytes) → IsFreeOf b'\n' w → newline_or_eof (w ++ b'\n' ∷ []) ≡ length w + 1
newline_or_eof-last w h = newline_or_eof-line w [] h ∙ ground (arith, length-append w (b'\n' ∷ []))

newline_or_eof-inner :
    (w : Bytes) (d : ℕ) (s : Bytes)
    → IsFreeOf b'\n' w
    → newline_or_eof (w ++ b'\n' ∷ d ∷ s) ≡ length w
newline_or_eof-inner w d s h =
    newline_or_eof-line w (d ∷ s) h ∙ ground (arith, length-append w (b'\n' ∷ d ∷ s))

pub take-to_newline :
    (w s : Bytes)
    → IsFreeOf b'\n' w
    → take (newline_or_eof (w ++ b'\n' ∷ s) + 1) (w ++ b'\n' ∷ s) ≡ w ++ b'\n' ∷ []
take-to_newline w [] h =
    rw (newline_or_eof-last w h)
      (take_over (length w + 1 + 1) (w ++ b'\n' ∷ []) (omega (arith, length-append w (b'\n' ∷ []))))
take-to_newline w (d ∷ s) h = rw (newline_or_eof-inner w d s h) (take-line w (d ∷ s))

pub drop-to_newline :
    (w s : Bytes)
    → IsFreeOf b'\n' w
    → drop (newline_or_eof (w ++ b'\n' ∷ s) + 1) (w ++ b'\n' ∷ s) ≡ s
drop-to_newline w [] h =
    rw (newline_or_eof-last w h)
      (drop_over (length w + 1 + 1) (w ++ b'\n' ∷ []) (omega (arith, length-append w (b'\n' ∷ []))))
drop-to_newline w (d ∷ s) h = rw (newline_or_eof-inner w d s h) (drop-line w (d ∷ s))

pub single_line-line :
    (flushed : List Message) (level : ℕ) (w s : Bytes)
    → IsFreeOf b'\n' w
    → single_line flushed level (w ++ b'\n' ∷ s)
      ≡ goes (flushed ++ say level (w ++ b'\n' ∷ []) ∷ []) [] s
unfolding single_line
single_line-line flushed level w [] h =
    let text = w ++ b'\n' ∷ [] in
    let all : nat_beq (newline_or_eof text) (length text) ≡ true =
      ground (arith, newline_or_eof-last w h, length-append w (b'\n' ∷ [])) in
    rw (all, drop-to_newline w [] h) refl
single_line-line flushed level w (d ∷ s) h =
    let text = w ++ b'\n' ∷ d ∷ s in
    let part : nat_beq (newline_or_eof text) (length text) ≡ false =
      ground (arith, newline_or_eof-inner w d s h, length-append w (b'\n' ∷ d ∷ s)) in
    rw (part, take-to_newline w (d ∷ s) h, drop-to_newline w (d ∷ s) h) refl

-- A line without a header has none with what follows it.
colons-newline :
    (level : ℕ) (w s : Bytes) → colons level w ≡ none → colons level (w ++ b'\n' ∷ s) ≡ none
unfolding colons
colons-newline level [] [] h = refl
colons-newline level [] (d ∷ []) h = refl
colons-newline level [] (d ∷ e ∷ s) h = refl
colons-newline level (c ∷ []) [] h = ground arith
colons-newline level (c ∷ []) (d ∷ s) h = ground arith
colons-newline level (c ∷ d ∷ []) s h = ground arith
colons-newline level (c ∷ d ∷ e ∷ w) s h = ground arith

digits-newline : (n : ℕ) (w s : Bytes) → digits n w ≡ none → digits n (w ++ b'\n' ∷ s) ≡ none
unfolding digits
digits-newline n [] s h = colons-newline (min n 65535) [] s refl
digits-newline n (c ∷ w) s h =
    ground (arith, digits-newline (n * 10 + (c - b'0')) w s, colons-newline (min n 65535) (c ∷ w) s)

pub find_header-newline : (w s : Bytes) → find_header w ≡ none → find_header (w ++ b'\n' ∷ s) ≡ none
unfolding find_header
find_header-newline [] s h = refl
find_header-newline (c ∷ w) s h = ground (arith, digits-newline (c - b'0') w s)
