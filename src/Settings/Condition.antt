-- ===== src/Settings/Condition.antt =====
-- base/settings/condition.go: the conditions under which startup services and their arguments hold.
-- A text is its bytes; positions are byte positions, as in the program.
pub mod Words
pub mod Hang
use debug_bootstrap.Prelude.{
  ℕ, zero, suc, ◌+◌, ◌-◌, Bool, true, false, not, Option, none, some, List, [], ◌∷◌, ◌++◌, ◌&&◌,
  ◌||◌, Bytes, codes, bytes_equal, ◌==◌, nat_beq, ltb, leb, length, drop, get_elem?, if◌then◌else◌,
}

-- Expression: an interface, so an argument may be nil.
mutual
  pub data Expression : Type 0 where
    bool_exp : Bool → Expression
    and_exp or_exp not_exp : Arguments → Expression
    user_exp : Bytes → Expression

  pub data Arguments : Type 0 where
    no_arguments : Arguments
    argument : Expression → Arguments → Arguments
    nil_argument : Arguments → Arguments

abbrev pub and_one : Option Bool → Option Bool → Option Bool
and_one none rest = none
and_one (some false) rest = some false
and_one (some true) rest = rest

abbrev pub or_one : Option Bool → Option Bool → Option Bool
or_one none rest = none
or_one (some true) rest = some true
or_one (some false) rest = rest

abbrev pub negate : Option Bool → Option Bool
negate none = none
negate (some b) = some (not b)

-- Examine: `none` is the panic of a call on a nil argument. `input` says which keys there are.
unfoldable mutual
  pub examine : (Bytes → Bool) → Expression → Option Bool
  examine input (bool_exp b) = some b
  examine input (and_exp ts) = examine_all input ts
  examine input (or_exp ts) = examine_any input ts
  examine input (not_exp ts) = examine_only input ts
  examine input (user_exp u) = some (input u)

  pub examine_all : (Bytes → Bool) → Arguments → Option Bool
  examine_all input no_arguments = some true
  examine_all input (argument t ts) = and_one (examine input t) (examine_all input ts)
  examine_all input (nil_argument ts) = none

  pub examine_any : (Bytes → Bool) → Arguments → Option Bool
  examine_any input no_arguments = some false
  examine_any input (argument t ts) = or_one (examine input t) (examine_any input ts)
  examine_any input (nil_argument ts) = none

  -- `not` has one argument: with any other number it is false.
  pub examine_only : (Bytes → Bool) → Arguments → Option Bool
  examine_only input no_arguments = some false
  examine_only input (argument t no_arguments) = negate (examine input t)
  examine_only input (argument t (argument u ts)) = some false
  examine_only input (argument t (nil_argument ts)) = some false
  examine_only input (nil_argument no_arguments) = none
  examine_only input (nil_argument (argument t ts)) = some false
  examine_only input (nil_argument (nil_argument ts)) = some false

-- [\w-]
unfoldable pub is_word : ℕ → Bool
is_word c =
    (leb b'a' c && leb c b'z')
    || (leb b'A' c && leb c b'Z')
    || (leb b'0' c && leb c b'9')
    || nat_beq c b'_'
    || nat_beq c b'-'

-- The longest prefix of bytes in [\w-].
unfoldable pub word : Bytes → Bytes
word [] = []
word (c ∷ s) = if is_word c then c ∷ word s else []

-- strings.IndexFunc for the first byte that is no space, `none` for -1.
unfoldable pub index_nonspace : Bytes → Option ℕ
index_nonspace [] = none
index_nonspace (c ∷ s) =
    if nat_beq c b' '
    then elim (index_nonspace s) [ none ↦ none | some i ↦ some (suc i) ]
    else some 0

-- forward
unfoldable pub forward : ℕ → Bytes → ℕ
forward from s = elim (index_nonspace (drop from s)) [ none ↦ from | some i ↦ i + from ]

-- The position of the next byte after an argument; where there is none, IndexFunc gives -1.
unfoldable pub after_argument : ℕ → Bytes → ℕ
after_argument next s = elim (index_nonspace (drop next s)) [ none ↦ next - 1 | some i ↦ i + next ]

-- The table `expressions`, and a key of the input for any other word.
unfoldable pub build : Bytes → Arguments → Expression
build token ts =
    if token == codes "true"
    then bool_exp true
    else if token == codes "false"
    then bool_exp false
    else if token == codes "and"
    then and_exp ts
    else if token == codes "or"
    then or_exp ts
    else if token == codes "not"
    then not_exp ts
    else user_exp token

pub data ParseError : Type 0 where
  fine end_of_line expecting : ParseError

-- What getOne returns; an index out of range is a panic, and fuel is the model's own.
pub data Parsed : Type 0 where
  parsed : Option Expression → ℕ → ParseError → Parsed
  panics out_of_fuel : Parsed

abbrev pub add_argument : Option Expression → Arguments → Arguments
add_argument none ts = nil_argument ts
add_argument (some t) ts = argument t ts

-- append(args, sub)
unfoldable pub snoc : Arguments → Option Expression → Arguments
snoc no_arguments sub = add_argument sub no_arguments
snoc (argument t ts) sub = argument t (snoc ts sub)
snoc (nil_argument ts) sub = nil_argument (snoc ts sub)

-- The end of getOne.
unfoldable pub built : Bytes → Bytes → Arguments → ℕ → Parsed
built s token ts next =
    parsed (some (build token ts)) next (if leb (length s) next then end_of_line else fine)

-- One round of the loop over the arguments, after the argument: `more` is the next round.
unfoldable pub argument_end :
    Bytes → Bytes → Arguments → ℕ → (ℕ → Arguments → Parsed) → Option ℕ → Parsed
unfolding built
argument_end s token ts next more none = panics
argument_end s token ts next more (some c) =
    if nat_beq c b')'
    then built s token ts (suc next)
    else if not (nat_beq c b',')
    then parsed none next expecting
    else more next ts

unfoldable pub argument_read :
    Bytes → Bytes → Arguments → (ℕ → Arguments → Parsed) → Parsed → Parsed
unfolding argument_end
argument_read s token ts more (parsed sub next fine) =
    let next' = after_argument next s in
    argument_end s token (snoc ts sub) next' more (get_elem? s next')
argument_read s token ts more (parsed sub next end_of_line) = parsed none next end_of_line
argument_read s token ts more (parsed sub next expecting) = parsed none next expecting
argument_read s token ts more panics = panics
argument_read s token ts more out_of_fuel = out_of_fuel

-- Does the token have arguments? A parenthesis at the very end is not looked at.
unfoldable pub opens : Bytes → ℕ → Bool
opens s next =
    if ltb (suc next) (length s)
    then elim (get_elem? s next) [ none ↦ false | some c ↦ nat_beq c b'(' ]
    else false

-- The two recursions of getOne on one fuel: the loop over the arguments, and the call for one
-- expression.
pub data Call : Type 0 where
  one : ℕ → Call
  loop : (token : Bytes) → (next : ℕ) → (args : Arguments) → Call

unfoldable pub get_token : Bytes → (Call → Parsed) → ℕ → Bytes → Parsed
unfolding opens built
get_token s call position [] = parsed none position fine
get_token s call position (c ∷ rest) =
    let token = c ∷ rest in
    let next = forward (length token + position) s in
    if opens s next then call (loop token next no_arguments) else built s token no_arguments next

unfoldable pub get_one : ℕ → Bytes → Call → Parsed
unfolding get_token argument_read
get_one zero s call = out_of_fuel
get_one (suc fuel) s (one position) =
    let start = forward position s in get_token s (get_one fuel s) start (word (drop start s))
get_one (suc fuel) s (loop token next ts) =
    argument_read s token ts (λ next' ts'. get_one fuel s (loop token next' ts'))
      (get_one fuel s (one (suc next)))

-- GetExpression
pub data Condition : Type 0 where
  condition : Expression → Condition
  garbage syntax_error panicked diverges : Condition

unfoldable pub checked : Bytes → Parsed → Condition
checked s (parsed (some t) next end_of_line) = condition t
checked s (parsed none next end_of_line) = if nat_beq next (length s) then syntax_error else garbage
checked s (parsed t next fine) = if nat_beq next (length s) then syntax_error else garbage
checked s (parsed t next expecting) = if nat_beq next (length s) then syntax_error else garbage
checked s panics = panicked
checked s out_of_fuel = diverges

unfoldable pub get_expression : ℕ → Bytes → Condition
unfolding checked
get_expression fuel [] = condition (bool_exp true)
get_expression fuel (c ∷ s) = checked (c ∷ s) (get_one fuel (c ∷ s) (one 0))
