-- ===== src/Socat/Forwards.antt =====
-- apps/plugins/socat/plugin/socat.go: the table of port forwards. What the firewall does with a set
-- of rules is an argument: `ok` says whether nft returned no error. The cache of reserved ports is
-- another package's: an interface of the operations that are used, and their laws.
pub mod Kept
pub mod Namespace
pub mod Undo
use debug_bootstrap.Prelude.{
  ℕ, ◌≡◌, Bool, true, false, Option, none, some, List, [], ◌∷◌, ◌++◌, Bytes, codes, has_prefix,
  if◌then◌else◌, ◌==◌, bytes_equal, nat_equal, nat_beq,
}
use debug_bootstrap.Prelude.Int.{ℤ, pos}
use debug_bootstrap.Prelude.Dict.{Dict, lookup, insert, remove}
use debug_bootstrap.Socat.Source.{Source, Rule, get_source, decimal, decimal_int, rules}

-- The cache by its keys: the texts of ports, here the ports. An entry that expires between two
-- calls is another cache.
pub record Cache (C : Type 0) : Type 0 where
  pub get : ℕ → C → Bool
  pub set : ℕ → C → C
  pub delete : ℕ → C → C
  pub get-set : (p q : ℕ) (c : C) → get q (set p c) ≡ (if nat_beq p q then true else get q c)
  pub get-delete : (p q : ℕ) (c : C) → get q (delete p c) ≡ (if nat_beq p q then false else get q c)

-- type socatManager struct
pub record SocatManager (C : Type 0) : Type 0 where
  pub rules : Dict ℕ Rule
  pub reserved : C

pub data ForwardError : Type 0 where
  fine invalid_source port_in_use nft_failed no_forward permission_denied : ForwardError

unfoldable pub forward_id : Bytes → ℕ → ℤ → Bytes
forward_id namespace host dest =
    codes "socat-" ++ namespace ++ codes "-" ++ decimal host ++ codes "-" ++ decimal_int dest

unfoldable pub valid_host : Bytes → Bool
valid_host host = elim (get_source host) [ none ↦ false | some src ↦ true ]

unfoldable pub new_rule : Bytes → Bytes → Source → ℤ → Rule
new_rule namespace ip src dest = record {
  ns = forward_id namespace src.port dest;
  source = src;
  port = dest;
  ip = ip;
}

module _ {C : Type 0} (cache : Cache C) where
  -- The entry of the port, if there is one, and the new rule.
  unfoldable pub set_rule :
      Bool → Rule → Option Rule → SocatManager C → SocatManager C × ForwardError
  set_rule ok r (some old) m = (m, port_in_use)
  set_rule false r none m = (m, nft_failed)
  set_rule true r none m = (
    record {
      rules = insert r.source.port r m.rules;
      reserved = cache.delete r.source.port m.reserved;
    },
    fine,
  )

  set_source :
      Bool → Bytes → Bytes → ℤ → Option Source → SocatManager C → SocatManager C × ForwardError
  unfolding set_rule
  set_source ok namespace ip dest none m = (m, invalid_source)
  set_source ok namespace ip dest (some src) m =
      set_rule ok (new_rule namespace ip src dest) (lookup src.port m.rules) m

  unfoldable pub set_port_forward :
      Bool → Bytes → Bytes → Bytes → ℤ → SocatManager C → SocatManager C × ForwardError
  unfolding set_source
  set_port_forward ok namespace ip host dest m = set_source ok namespace ip dest (get_source host) m

module _ {C : Type 0} where
  unfoldable pub remove_rule :
      Bool → Bytes → ℕ → ℤ → Option Rule → SocatManager C → SocatManager C × ForwardError
  remove_rule ok namespace port dest none m = (m, no_forward)
  remove_rule ok namespace port dest (some r) m =
      if r.ns == forward_id namespace port dest
      then (if ok then (record m { rules = remove port m.rules }, fine) else (m, nft_failed))
      else (m, permission_denied)

  remove_source : Bool → Bytes → ℤ → Option Source → SocatManager C → SocatManager C × ForwardError
  unfolding remove_rule
  remove_source ok namespace dest none m = (m, invalid_source)
  remove_source ok namespace dest (some src) m =
      remove_rule ok namespace src.port dest (lookup src.port m.rules) m

  unfoldable pub remove_port_forward :
      Bool → Bytes → Bytes → ℤ → SocatManager C → SocatManager C × ForwardError
  unfolding remove_source
  remove_port_forward ok namespace host dest m = remove_source ok namespace dest (get_source host) m

-- The loop over the table: the ports of the rules with the prefix, and the firewall's rules.
unfoldable pub in_namespace : (Bytes → Bool) → Bytes → Dict ℕ Rule → List ℕ × List Bytes
in_namespace is_address prefix [] = ([], [])
in_namespace is_address prefix ((host, r) ∷ rest) =
    let (ports, bodies) = in_namespace is_address prefix rest in
    if has_prefix r.ns prefix then (host ∷ ports, rules is_address r ++ bodies) else (ports, bodies)

unfoldable pub remove_ports : List ℕ → Dict ℕ Rule → Dict ℕ Rule
remove_ports [] t = t
remove_ports (p ∷ ps) t = remove_ports ps (remove p t)

module _ {C : Type 0} where
  -- With nothing to delete the firewall is not asked.
  unfoldable pub drop_found : Bool → List ℕ × List Bytes → SocatManager C → SocatManager C × Bool
  drop_found ok (ports, []) m = (m, true)
  drop_found true (ports, body ∷ bodies) m = (record m { rules = remove_ports ports m.rules }, true)
  drop_found false (ports, body ∷ bodies) m = (m, false)

  unfoldable pub remove_all : (Bytes → Bool) → Bool → Bytes → SocatManager C → SocatManager C × Bool
  unfolding drop_found
  remove_all is_address ok namespace m =
      drop_found ok (in_namespace is_address (codes "socat-" ++ namespace) m.rules) m
