-- ===== src/Stream/Consumer/Lines.antt =====
-- base/stream/input.go: buffers of whole lines.
use debug_bootstrap.Stream.Meta.{Message}
use debug_bootstrap.Prelude.{
  ℕ, zero, suc, ◌+◌, ◌-◌, ◌*◌, ◌≤◌, min, Bool, true, false, none, some, List, [], ◌∷◌, ◌++◌, Bytes,
  ◌≡◌, refl, ap, ◌∙◌, length, nat_beq, All, IsFreeOf, is_digit, length-append, append_assoc,
  append-nil, arith,
}
use debug_bootstrap.Stream.Consumer.Pattern.{Header, colons, digits, find_header}
use debug_bootstrap.Stream.Consumer.{
  Consumer, say, flush, turn, goes, emit, scan, process_rest, process,
}
use debug_bootstrap.Stream.Consumer.Newline.{
  take-to_newline, drop-to_newline, single_line-line, find_header-newline,
}

-- A header of two colons: its level is the number that its digits spell, at most the largest word.
unfoldable pub number : ℕ → Bytes → ℕ
number n [] = n
number n (c ∷ s) = number (n * 10 + (c - b'0')) s

abbrev starts_with_colon : Bytes → Bool
starts_with_colon [] = false
starts_with_colon (c ∷ s) = nat_beq c b':'

abbrev pub single : ℕ → Bytes → Header
single level text = record { level = level; multiline = false; rest = text }

colons-single :
    (level : ℕ) (w s : Bytes)
    → starts_with_colon w ≡ false
    → colons level (b':' ∷ b':' ∷ (w ++ b'\n' ∷ s)) ≡ some (single level (w ++ b'\n' ∷ s))
unfolding colons
colons-single level [] s h = refl
colons-single level (c ∷ w) s h = rw h refl

digits-single :
    (n : ℕ) (ds w s : Bytes)
    → All (λ d. is_digit d ≡ true) ds
    → starts_with_colon w ≡ false
    → digits n (ds ++ b':' ∷ b':' ∷ (w ++ b'\n' ∷ s))
      ≡ some (single (min (number n ds) 65535) (w ++ b'\n' ∷ s))
unfolding digits number
digits-single n [] w s h q = colons-single (min n 65535) w s q
digits-single n (d ∷ ds) w s h q = rw h.0 (digits-single (n * 10 + (d - b'0')) ds w s h.1 q)

-- A line of the output: one without a header, or one with the digits of a level.
pub data Line : Type 0 where
  plain : Bytes → Line
  marked : ℕ → Bytes → Bytes → Line

abbrev pub IsLine : Line → Type 0
IsLine (plain w) = IsFreeOf b'\n' w × (find_header w ≡ none)
IsLine (marked d ds w) =
    (is_digit d ≡ true)
    × All (λ d. is_digit d ≡ true) ds
    × IsFreeOf b'\n' w
    × (starts_with_colon w ≡ false)

unfoldable pub text : List Line → Bytes
text [] = []
text (plain w ∷ ls) = w ++ b'\n' ∷ text ls
text (marked d ds w ∷ ls) = d ∷ (ds ++ b':' ∷ b':' ∷ (w ++ b'\n' ∷ text ls))

-- What the lines say: one message for each marked line, and one for the plain lines between two
-- of them, if there are any.
unfoldable pub messages : ℕ → Bytes → List Line → List Message
unfolding flush say number
messages own pending [] = flush own pending
messages own pending (plain w ∷ ls) = messages own (pending ++ (w ++ b'\n' ∷ [])) ls
messages own pending (marked d ds w ∷ ls) =
    let level = min (number (d - b'0') ds) 65535 in
    flush own pending ++ say level (w ++ b'\n' ∷ []) ∷ messages own [] ls

turn-plain :
    (c : Consumer) (pending w s : Bytes)
    → IsLine (plain w)
    → turn c pending (w ++ b'\n' ∷ s) ≡ goes [] (pending ++ (w ++ b'\n' ∷ [])) s
unfolding turn
turn-plain c pending w s h =
    rw (turn, find_header-newline w s h.1, take-to_newline w s h.0, drop-to_newline w s h.0) refl

find_header-marked :
    (d : ℕ) (ds w s : Bytes)
    → IsLine (marked d ds w)
    → find_header (d ∷ (ds ++ b':' ∷ b':' ∷ (w ++ b'\n' ∷ s)))
      ≡ some (single (min (number (d - b'0') ds) 65535) (w ++ b'\n' ∷ s))
unfolding find_header
find_header-marked d ds w s h = rw h.0 (digits-single (d - b'0') ds w s h.1 h.3)

turn-marked :
    (c : Consumer) (pending : Bytes) (d : ℕ) (ds w s : Bytes)
    → IsLine (marked d ds w)
    → turn c pending (d ∷ (ds ++ b':' ∷ b':' ∷ (w ++ b'\n' ∷ s)))
      ≡ goes
          (flush c.level pending ++ say (min (number (d - b'0') ds) 65535) (w ++ b'\n' ∷ []) ∷ [])
          []
          s
unfolding turn
turn-marked c pending d ds w s h =
    rw (turn, find_header-marked d ds w s h)
      (single_line-line (flush c.level pending) (min (number (d - b'0') ds) 65535) w s h.2)

scan-turn :
    (fuel : ℕ) (c : Consumer) (pending : Bytes) (x : ℕ) (rest : Bytes) (said : List Message)
    (held behind : Bytes)
    → turn c pending (x ∷ rest) ≡ goes said held behind
    → scan (suc fuel) c pending (x ∷ rest) ≡ emit said (scan fuel c held behind)
unfolding scan
scan-turn fuel c pending x rest said held behind h = rw (scan, h) refl

scan-lines :
    (fuel : ℕ) (c : Consumer) (pending : Bytes) (ls : List Line)
    → length (text ls) ≤ fuel
    → All IsLine ls
    → scan fuel c pending (text ls) ≡ (messages c.level pending ls, c)
unfolding scan text messages
scan-lines zero c pending [] e h = rw (append-nil pending) refl
scan-lines (suc fuel) c pending [] e h = refl
scan-lines zero c pending (plain w ∷ ls) e h =
    absurd (omega (arith, length-append w (b'\n' ∷ text ls)))
scan-lines zero c pending (marked d ds w ∷ ls) e h = absurd (omega arith)
scan-lines (suc fuel) c pending (plain [] ∷ ls) e h =
    scan-turn fuel c pending b'\n' (text ls) [] (pending ++ (b'\n' ∷ [])) (text ls)
      (turn-plain c pending [] (text ls) h.0)
    ∙ ap (emit []) (scan-lines fuel c (pending ++ (b'\n' ∷ [])) ls (omega arith) h.1)
scan-lines (suc fuel) c pending (plain (x ∷ w) ∷ ls) e h =
    let held = pending ++ (x ∷ w ++ b'\n' ∷ []) in
    scan-turn fuel c pending x (w ++ b'\n' ∷ text ls) [] held (text ls)
      (turn-plain c pending (x ∷ w) (text ls) h.0)
    ∙ ap (emit [])
        (scan-lines fuel c held ls (omega (arith, length-append w (b'\n' ∷ text ls))) h.1)
scan-lines (suc fuel) c pending (marked d ds w ∷ ls) e h =
    let line = w ++ b'\n' ∷ text ls in
    let shorter : length (text ls) ≤ fuel =
      omega (arith, length-append ds (b':' ∷ b':' ∷ line), length-append w (b'\n' ∷ text ls)) in
    let said = say (min (number (d - b'0') ds) 65535) (w ++ b'\n' ∷ []) in
    scan-turn fuel c pending d (ds ++ b':' ∷ b':' ∷ line) (flush c.level pending ++ said ∷ []) []
      (text ls) (turn-marked c pending d ds w (text ls) h.0)
    ∙ ap (emit (flush c.level pending ++ said ∷ [])) (scan-lines fuel c [] ls shorter h.1)
    ∙ ap (λ m. (m, c)) (append_assoc (flush c.level pending) (said ∷ []) (messages c.level [] ls))

-- Reading between messages a buffer of whole lines, ones without a header and ones with a header of
-- two colons, says one message with its level for each line with a header, and one with the
-- consumer's level for the lines without one that stand together, and leaves the consumer as it was.
pub process-lines :
    (level multi_level : ℕ) (ls : List Line)
    → All IsLine ls
    → process (record { level = level; multi = none; multi_level = multi_level }) (text ls)
      ≡ (messages level [] ls, record { level = level; multi = none; multi_level = multi_level })
unfolding process process_rest
process-lines level multi_level ls h =
    let c : Consumer = record { level = level; multi = none; multi_level = multi_level } in
    scan-lines (length (text ls)) c [] ls (omega arith) h
