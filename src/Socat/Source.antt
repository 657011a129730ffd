-- ===== src/Socat/Source.antt =====
-- apps/plugins/socat/plugin/rule.go: the source of a forward, as a user writes it, and the rules of
-- the firewall for it. `Sscanf` with "%d" skips spaces and reads a sign and digits; whatever follows
-- them is left.
pub mod Accepted
use debug_bootstrap.Prelude.{
  ℕ, zero, suc, ◌+◌, ◌-◌, ◌*◌, ◌/◌, ◌%◌, Bool, true, false, ◌&&◌, ◌||◌, Option, none, some, List,
  [], ◌∷◌, ◌++◌, Bytes, codes, split, split_two, ltb, leb, nat_beq, if◌then◌else◌, ◌==◌, is_digit,
  bytes_equal,
}
use debug_bootstrap.Prelude.Int.{ℤ, pos, negsuc}

-- type source struct
pub record Source : Type 0 where
  pub ip : Bytes
  pub port : ℕ
  pub protocols : List Bytes

is_space : ℕ → Bool
is_space c = nat_beq c 32 || nat_beq c 9 || nat_beq c 11 || nat_beq c 12 || nat_beq c 13

-- The digits at the front, after the value of those before.
unfoldable pub scan_digits : ℕ → Bytes → ℕ
unfolding is_digit
scan_digits n [] = n
scan_digits n (c ∷ s) =
    let rest = scan_digits (n * 10 + (c - b'0')) s in if is_digit c then rest else n

-- At least one digit is needed.
unfoldable pub scan_nat : Bytes → Option ℕ
unfolding is_digit
scan_nat [] = none
scan_nat (c ∷ s) = if is_digit c then some (scan_digits 0 (c ∷ s)) else none

minus_sign : Option ℕ → Option ℤ
minus_sign none = none
minus_sign (some zero) = some (pos 0)
minus_sign (some (suc n)) = some (negsuc n)

plus_sign : Option ℕ → Option ℤ
plus_sign none = none
plus_sign (some n) = some (pos n)

-- A number that does not fit an int is an error here, and an invalid port below: an error in both.
unfoldable pub scan_int : Bytes → Option ℤ
unfolding is_space minus_sign plus_sign
scan_int [] = none
scan_int (c ∷ s) =
    let rest = scan_int s in
    if is_space c
    then rest
    else if nat_beq c b'-'
    then minus_sign (scan_nat s)
    else if nat_beq c b'+'
    then plus_sign (scan_nat s)
    else plus_sign (scan_nat (c ∷ s))

abbrev pub tcp : Bytes
tcp = codes "tcp"

abbrev pub udp : Bytes
udp = codes "udp"

unfoldable pub valid_protocols : List Bytes → Bool
valid_protocols [] = true
valid_protocols (p ∷ ps) = (p == tcp || p == udp) && valid_protocols ps

abbrev pub address_all : Bytes
address_all = codes "0.0.0.0"

-- The part after the bar, or the default.
unfoldable pub protocols_of : Option Bytes → List Bytes
protocols_of none = tcp ∷ []
protocols_of (some text) = split b'+' text

-- `address` is what stands before the colon: the host has a port, or an address and a port.
unfoldable pub with_port : List Bytes → Bytes → Option ℤ → Option Source
with_port protocols ip none = none
with_port protocols ip (some (negsuc n)) = none
with_port protocols ip (some (pos n)) =
    if nat_beq n 0 || leb 65536 n
    then none
    else some (record { ip = ip; port = n; protocols = protocols })

unfoldable pub source_at : List Bytes → Bytes × Option Bytes → Option Source
unfolding with_port
source_at protocols (port, none) = with_port protocols address_all (scan_int port)
source_at protocols (ip, some port) = with_port protocols ip (scan_int port)

unfoldable pub source_of : Bytes × Option Bytes → Option Source
unfolding source_at protocols_of
source_of (src, text) =
    let protocols = protocols_of text in
    if valid_protocols protocols then source_at protocols (split_two b':' src) else none

-- getSource: `none` for an error
unfoldable pub get_source : Bytes → Option Source
unfolding source_of
get_source src = source_of (split_two b'|' src)

-- fmt's %d
decimal_from : ℕ → ℕ → Bytes → Bytes
decimal_from zero n tail = tail
decimal_from (suc fuel) n tail =
    let more = decimal_from fuel (n / 10) ((b'0' + n % 10) ∷ tail) in
    if ltb n 10 then (b'0' + n) ∷ tail else more

unfoldable pub decimal : ℕ → Bytes
unfolding decimal_from
decimal n = decimal_from (suc n) n []

unfoldable pub decimal_int : ℤ → Bytes
decimal_int (pos n) = decimal n
decimal_int (negsuc n) = b'-' ∷ decimal (suc n)

-- type rule struct
pub record Rule : Type 0 where
  pub ns : Bytes
  pub source : Source
  pub port : ℤ
  pub ip : Bytes

-- `is_address` says whether net.ParseIP or net.ParseCIDR takes the text.
module _ (is_address : Bytes → Bool) where
  unfoldable pub match : Source → Bytes → Bytes
  match s proto =
      let dport = proto ++ codes " dport " ++ decimal s.port in
      if is_address s.ip
      then (if s.ip == address_all then dport else codes "ip saddr " ++ s.ip ++ codes " " ++ dport)
      else codes "iifname \"" ++ s.ip ++ codes "\" " ++ dport

  unfoldable pub matches_from : Source → List Bytes → List Bytes
  matches_from s [] = []
  matches_from s (proto ∷ rest) = match s proto ∷ matches_from s rest

  unfoldable pub matches : Source → List Bytes
  unfolding matches_from
  matches s = matches_from s s.protocols

  unfoldable pub rule : Rule → Bytes → Bytes
  rule r m =
      codes "ip daddr @host " ++ m ++ codes " dnat to " ++ r.ip ++ codes ":" ++ decimal_int r.port

  unfoldable pub rules_from : Rule → List Bytes → List Bytes
  rules_from r [] = []
  rules_from r (m ∷ ms) = rule r m ∷ rules_from r ms

  unfoldable pub rules : Rule → List Bytes
  unfolding rules_from
  rules r = rules_from r (matches r.source)
