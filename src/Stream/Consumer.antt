-- ===== src/Stream/Consumer.antt =====
-- base/stream/input.go: what a process writes, cut_at into messages. The loop's indices are lists here:
-- `pending` is buffer[start:i], and `rest` is buffer[i:].
pub mod Pattern
mod Newline
pub mod Lines
pub mod Fuel
pub mod Multi
use debug_bootstrap.Prelude.{
  ℕ, zero, suc, ◌+◌, ◌-◌, Bool, true, false, ◌&&◌, Option, none, some, List, [], ◌∷◌, ◌++◌, Bytes,
  length, take, drop, leb, nat_beq, has_prefix, if◌then◌else◌,
}
use debug_bootstrap.Stream.Meta.{Message, new_meta}
use debug_bootstrap.Stream.Consumer.Pattern.{Header, find_header}

-- type consumerImpl struct: `multi` is the message of several lines that is being read.
pub record Consumer : Type 0 where
  pub level : ℕ
  pub multi : Option Bytes
  pub multi_level : ℕ

-- The message that the handler is called with; its time is not set here.
unfoldable pub say : ℕ → Bytes → Message
say level text = record { message = text; epoch = 0; meta = new_meta level [] }

is_continuation : ℕ → Bool
is_continuation c = leb 128 c && leb c 191

unfoldable pub all_continue : ℕ → Bytes → Bool
unfolding is_continuation
all_continue zero s = true
all_continue (suc n) [] = false
all_continue (suc n) (c ∷ s) = is_continuation c && all_continue n s

-- How many bytes a rune with this first byte has, and what its second byte may be.
unfoldable pub sequence_length : ℕ → ℕ
sequence_length c =
    if leb 194 c && leb c 223
    then 2
    else (if leb 224 c && leb c 239 then 3 else (if leb 240 c && leb c 244 then 4 else 1))

unfoldable pub lowest_second : ℕ → ℕ
lowest_second c = if nat_beq c 224 then 160 else (if nat_beq c 240 then 144 else 128)

unfoldable pub highest_second : ℕ → ℕ
highest_second c = if nat_beq c 237 then 159 else (if nat_beq c 244 then 143 else 191)

-- The bytes behind the first one that `range` over a string takes with it. A byte that starts no
-- rune is one by itself.
unfoldable pub rune_tail : ℕ → Bytes → ℕ
unfolding sequence_length lowest_second highest_second all_continue
rune_tail c [] = 0
rune_tail c (d ∷ s) =
    let n = sequence_length c in
    if leb 2 n && (leb (lowest_second c) d && leb d (highest_second c)) && all_continue (n - 2) s
    then n - 1
    else 0

unfoldable pub one_more : Option ℕ → Option ℕ
one_more none = none
one_more (some i) = some (suc i)

unfoldable pub index_or : ℕ → Option ℕ → ℕ
index_or n none = n
index_or n (some i) = i

-- The loop `for i, x = range string(b)`: where the last rune it looks at starts, if one starts here.
-- The first argument counts the bytes of the rune before.
unfoldable pub range_stop : ℕ → Bytes → Option ℕ
unfolding rune_tail one_more index_or
range_stop n [] = none
range_stop zero (c ∷ s) =
    let further = one_more (range_stop (rune_tail c s) s) in
    if nat_beq c b'\n' then some 0 else some (index_or 0 further)
range_stop (suc n) (c ∷ s) = one_more (range_stop n s)

unfoldable pub newline_or_eof : Bytes → ℕ
unfolding range_stop index_or
newline_or_eof b =
    let i = index_or 0 (range_stop 0 b) in if nat_beq (i + 1) (length b) then i + 1 else i

-- strings.Index for a separator that is not empty, with the texts before and behind it
unfoldable pub cut_at : Bytes → Bytes → Option (Bytes × Bytes)
unfolding has_prefix
cut_at sep [] = none
cut_at sep (c ∷ s) = elim (has_prefix (c ∷ s) sep) [
  | true ↦ some ([], drop (length sep) (c ∷ s))
  | false ↦ elim (cut_at sep s) [ none ↦ none | some (before, behind) ↦ some (c ∷ before, behind) ]
]

abbrev pub multi_line_term : Bytes
multi_line_term = b'\n' ∷ b':' ∷ b':' ∷ b':' ∷ b'\n' ∷ []

abbrev pub multi_line_head : Bytes
multi_line_head = b':' ∷ b':' ∷ b':' ∷ b'\n' ∷ []

-- What one turn of the loop does: it goes on, or it leaves the loop with a message of several lines
-- that has no end yet.
pub data Turn : Type 0 where
  goes : List Message → Bytes → Bytes → Turn
  leaves : List Message → Consumer → Turn

-- if start < len(buffer), and `if i > start` before a header
unfoldable pub flush : ℕ → Bytes → List Message
unfolding say
flush level [] = []
flush level (c ∷ s) = say level (c ∷ s) ∷ []

unfoldable pub single_line : List Message → ℕ → Bytes → Turn
unfolding newline_or_eof say
single_line flushed level text =
    let i = newline_or_eof text in
    let msg = if nat_beq i (length text) then text else take (i + 1) text in
    goes (flushed ++ say level msg ∷ []) [] (drop (i + 1) text)

-- The loop's i++ steps over the byte behind the end of the message: it is pending, not looked at.
unfoldable pub multi_line : Consumer → List Message → ℕ → Bytes → Turn
unfolding cut_at say
multi_line c flushed level text = elim (cut_at multi_line_term text) [
  | some (before, behind) ↦ goes (flushed ++ say level before ∷ []) (take 1 behind) (drop 1 behind)
  | none ↦ leaves flushed (record c { multi = some text; multi_level = level })
]

unfoldable pub turn : Consumer → Bytes → Bytes → Turn
unfolding find_header newline_or_eof flush single_line multi_line
turn c pending rest = elim (find_header rest) [
  | none ↦ let i = newline_or_eof rest in goes [] (pending ++ take (i + 1) rest) (drop (i + 1) rest)
  | some h ↦
      let flushed = flush c.level pending in
      if h.multiline
      then multi_line c flushed h.level h.rest
      else single_line flushed h.level h.rest
]

unfoldable pub emit : List Message → List Message × Consumer → List Message × Consumer
emit said (later, c) = (said ++ later, c)

-- The loop over the buffer, and the flush behind it; the fuel bounds the turns.
unfoldable pub scan : ℕ → Consumer → Bytes → Bytes → List Message × Consumer
unfolding turn flush emit
scan zero c pending rest = (flush c.level (pending ++ rest), c)
scan (suc fuel) c pending [] = (flush c.level pending, c)
scan (suc fuel) c pending (x ∷ rest) = elim (turn c pending (x ∷ rest)) [
  | goes said held behind ↦ emit said (scan fuel c held behind)
  | leaves said d ↦ (said, d)
]

unfoldable pub ends_in_newline : Bytes → Bool
ends_in_newline [] = false
ends_in_newline (c ∷ []) = nat_beq c b'\n'
ends_in_newline (c ∷ d ∷ s) = ends_in_newline (d ∷ s)

unfoldable pub process_rest : Consumer → Bytes → List Message × Consumer
unfolding scan
process_rest c buffer = scan (length buffer) c [] buffer

-- The end of a message of several lines: its text, and what stands behind it.
unfoldable pub end_of_multi : Bytes → Bytes → Option (Bytes × Bytes)
unfolding ends_in_newline has_prefix cut_at
end_of_multi body buffer = elim (ends_in_newline body && has_prefix buffer multi_line_head) [
  | true ↦ some (body, drop 4 buffer)
  | false ↦ elim (cut_at multi_line_term buffer) [
    | none ↦ none
    | some (before, behind) ↦ some (body ++ before, behind)
  ]
]

unfoldable pub process : Consumer → Bytes → List Message × Consumer
unfolding process_rest end_of_multi emit say
process c buffer = elim c.multi [
  | none ↦ process_rest c buffer
  | some body ↦ elim (end_of_multi body buffer) [
    | some (text, behind) ↦
        emit (say c.multi_level text ∷ []) (process_rest (record c { multi = none }) behind)
    | none ↦ ([], record c { multi = some (body ++ buffer) })
  ]
]

-- What Read returns: bytes, the last bytes with io.EOF, or another error.
pub data Read : Type 0 where
  bytes : Bytes → Read
  eof : Bytes → Read
  failed : Read

-- The reads that there are are taken one by one; a failed one ends the loop without a message.
unfoldable pub consume : Consumer → List Read → List Message × Consumer
unfolding process emit
consume c [] = ([], c)
consume c (bytes b ∷ reads) = let (said, d) = process c b in emit said (consume d reads)
consume c (eof b ∷ reads) = process c b
consume c (failed ∷ reads) = ([], c)
