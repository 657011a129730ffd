-- ===== src/Examples/Outputs.antt =====
-- Outputs of processes, read by the consumer of base/stream.
use debug_bootstrap.Prelude.{◌≡◌, refl, List, [], ◌∷◌, ◌++◌, codes, map, has_prefix, is_digit}
use debug_bootstrap.Stream.Consumer.{say, cut_at, process, consume, emit, bytes, eof}
use debug_bootstrap.Stream.Consumer.Pattern.{find_header}
use debug_bootstrap.Stream.Consumer.Lines.{
  Line, plain, marked, text, messages, number, process-lines,
}
use debug_bootstrap.Stream.Consumer.Multi.{between, reading, concat, header, consume-multi}

-- Two plain lines, one at level 20, and one more.
abbrev output : List Line
output =
    plain (codes "hi")
    ∷ plain (codes "12:no")
    ∷ marked b'2' (b'0' ∷ []) (codes "{}")
    ∷ plain []
    ∷ []

output-messages :
    messages 1 [] output
    ≡ say 1 (codes "hi\n12:no\n") ∷ say 20 (codes "{}\n") ∷ say 1 (codes "\n") ∷ []
unfolding messages number
output-messages = refl

output-process :
    process (between 1 0) (codes "hi\n12:no\n20::{}\n\n")
    ≡ (say 1 (codes "hi\n12:no\n") ∷ say 20 (codes "{}\n") ∷ say 1 (codes "\n") ∷ [], between 1 0)
unfolding process
output-process = refl

process-lines_example : process (between 1 0) (text output) ≡ (messages 1 [] output, between 1 0)
unfolding find_header is_digit
process-lines_example = process-lines 1 0 output (
  ((refl, (refl, tt)), refl),
  (
    ((refl, (refl, (refl, (refl, (refl, tt))))), refl),
    ((refl, (refl, tt), (refl, (refl, tt)), refl), ((tt, refl), tt)),
  ),
)

consume-multi_example :
    consume (between 1 0) (
      bytes (header b'3' (b'0' ∷ []) (codes "one\n")) ∷ map bytes (codes "two" ∷ [])
      ++ bytes (codes "\n:::\nrest") ∷ eof [] ∷ [])
    ≡ emit
        (say 30 (codes "one\n" ++ concat (codes "two" ∷ []) ++ []) ∷ [])
        (consume (between 1 30) (bytes (codes "rest") ∷ eof [] ∷ []))
unfolding cut_at has_prefix is_digit number
consume-multi_example =
    consume-multi 1 0 b'3' (b'0' ∷ []) (codes "one\n") (codes "two" ∷ []) (codes "\n:::\nrest") []
      (codes "rest") (eof [] ∷ []) refl (refl, tt) refl refl refl

-- A header right behind the end of a message of several lines is not seen.
process-behind :
    process (between 1 0) (codes "2:::a\n:::\n3::b\n")
    ≡ (say 2 (codes "a") ∷ say 1 (codes "3::b\n") ∷ [], between 1 0)
unfolding process
process-behind = refl

-- A message of several lines is lost, if the output ends before it does.
consume-lost :
    consume (between 1 0) (bytes (codes "2:::a\n") ∷ eof (codes "b\n") ∷ [])
    ≡ ([], reading 1 2 (codes "a\nb\n"))
unfolding consume
consume-lost = refl

-- An end that two reads cut behind its second byte is not seen.
consume-cut :
    consume (between 1 0) (bytes (codes "2:::a\n:") ∷ bytes (codes "::\nb\n") ∷ [])
    ≡ ([], reading 1 2 (codes "a\n:::\nb\n"))
unfolding consume
consume-cut = refl

-- The last rune of a line without a newline has two bytes here, and is cut between them.
process-rune :
    process (between 1 0) (codes "3::" ++ 195 ∷ 169 ∷ [])
    ≡ (say 3 (195 ∷ []) ∷ say 1 (169 ∷ []) ∷ [], between 1 0)
unfolding process
process-rune = refl
