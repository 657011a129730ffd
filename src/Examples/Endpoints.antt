-- ===== src/Examples/Endpoints.antt =====
-- The addresses of port forwards at concrete inputs.
use debug_bootstrap.Prelude.{
  ℕ, ◌≡◌, refl, Bool, Option, none, some, List, [], ◌∷◌, ◌++◌, Bytes, codes, bytes_equal, ◌==◌,
  if◌then◌else◌, nat_equal, split_two, has_prefix, ◌⊎◌,
}
use debug_bootstrap.Prelude.Int.{pos}
use debug_bootstrap.Prelude.Dict.{Dict, lookup}
use debug_bootstrap.Socat.Source.{
  Source, Rule, get_source, decimal_int, tcp, valid_protocols, scan_int, scan_nat, scan_digits,
  decimal,
}
use debug_bootstrap.Socat.Resolve.{Nic, resolve, get_interface_match}
use debug_bootstrap.Socat.Resolve.Admitted.{Covers, Leads, resolve-Covers}

abbrev nics : Option (List (Nic Bytes))
nics = some (
    record { name = codes "lo"; addrs = some (some (codes "127.0.0.1") ∷ []) }
    ∷ record { name = codes "zt0"; addrs = some (none ∷ some (codes "10.0.0.2") ∷ []) }
    ∷ [])

abbrev text : Bytes → Bytes
text ip = ip

abbrev cidr : Bytes → Option (Bytes → Bool)
cidr source =
    if source == codes "10.0.0.0/24" then some (λ ip. has_prefix ip (codes "10.0.0.")) else none

abbrev forward_rule : Bytes → ℕ → Rule
forward_rule source port = record {
  ns = codes "socat-1-80-90";
  source = record { ip = source; port = port; protocols = tcp ∷ [] };
  port = pos 90;
  ip = codes "172.18.0.5";
}

abbrev forwards : Dict ℕ Rule
forwards =
    (80, forward_rule (codes "zt*") 80)
    ∷ (81, forward_rule (codes "10.0.0.0/24") 81)
    ∷ (82, forward_rule (codes "lo") 82)
    ∷ []

resolve-forwards :
    (resolve text cidr forwards nics (codes "10.0.0.2:80") ≡ codes "172.18.0.5:90")
    × (resolve text cidr forwards nics (codes "10.0.0.2:81") ≡ codes "172.18.0.5:90")
    × (resolve text cidr forwards nics (codes "10.0.0.2:82") ≡ codes "10.0.0.2:82")
    × (resolve text cidr forwards nics (codes "10.0.0.9:80") ≡ codes "10.0.0.9:80")
unfolding resolve get_source split_two has_prefix decimal_int get_interface_match valid_protocols
    scan_int scan_nat scan_digits decimal
resolve-forwards = (refl, refl, refl, refl)

abbrev web : Source
web = record { ip = codes "10.0.0.2"; port = 80; protocols = tcp ∷ [] }

read-web : get_source (codes "10.0.0.2:80") ≡ some web
unfolding get_source split_two valid_protocols scan_int scan_nat scan_digits
read-web = refl

local-web : get_interface_match text (codes "10.0.0.2") nics ≡ some (codes "zt0", codes "10.0.0.2")
unfolding get_interface_match
local-web = refl

resolve-Covers_example :
    let answer = resolve text cidr forwards nics (codes "10.0.0.2:80") in
    ((r : Rule) × (lookup 80 forwards ≡ some r)
      × Covers text cidr (codes "zt0") (codes "10.0.0.2") r.source.ip
      × (answer ≡ r.ip ++ codes ":" ++ decimal_int r.port))
    ⊎ (¬ Leads text cidr forwards 80 (codes "zt0") (codes "10.0.0.2")
        × (answer ≡ codes "10.0.0.2:80"))
resolve-Covers_example =
    resolve-Covers text cidr forwards nics (codes "10.0.0.2:80") web (codes "zt0")
      (codes "10.0.0.2") read-web (λ e. absurd cc) local-web
