-- ===== src/Examples/Ports.antt =====
-- The port forwards of apps/plugins/socat, with a cache that is a list of ports.
use debug_bootstrap.Prelude.{
  ℕ, ◌≡◌, refl, true, false, some, List, [], ◌∷◌, ◌++◌, codes, split_two, nat_beq, contains,
  if◌then◌else◌, nat_equal, arith,
}
use debug_bootstrap.Prelude.Int.{pos}
use debug_bootstrap.Prelude.Dict.{lookup}
use debug_bootstrap.Socat.Source.{
  Source, get_source, source_of, source_at, with_port, valid_protocols, protocols_of, scan_int,
  scan_nat, scan_digits,
}
use debug_bootstrap.Socat.Source.Accepted.{IsSource, get_source-IsSource}
use debug_bootstrap.Socat.Forwards.{
  Cache, SocatManager, new_rule, set_port_forward, remove_port_forward, remove_all, fine,
}
use debug_bootstrap.Socat.Forwards.Kept.{
  IsTable, Op, sets, removes, removes_all, calls, calls-IsTable,
}
use debug_bootstrap.Socat.Forwards.Namespace.{without, lookup-remove_all}
use debug_bootstrap.Socat.Forwards.Undo.{remove-set_port_forward}
use debug_bootstrap.Socat.Reserve.{taken, reserve}
use debug_bootstrap.Socat.Reserve.Free.{IsReservation, reserve-IsReservation}

abbrev without_port : ℕ → List ℕ → List ℕ
without_port p [] = []
without_port p (q ∷ qs) = let rest = without_port p qs in if nat_beq q p then rest else q ∷ rest

contains-without_port :
    (p q : ℕ) (c : List ℕ)
    → contains (without_port p c) q ≡ (if nat_beq p q then false else contains c q)
contains-without_port p q [] = ground arith
contains-without_port p q (x ∷ c) = ground (arith, contains-without_port p q c)

abbrev ports : Cache (List ℕ)
ports = record {
  get = λ p c. contains c p;
  set = λ p c. p ∷ c;
  delete = without_port;
  get-set = λ p q c. refl;
  get-delete = contains-without_port;
}

abbrev web : Source
web = record { ip = codes "0.0.0.0"; port = 80; protocols = codes "tcp" ∷ [] }

web_source : get_source (codes "80") ≡ some web
unfolding get_source source_of source_at with_port valid_protocols protocols_of scan_int scan_nat
    scan_digits split_two
web_source = refl

get_source-IsSource_example : IsSource web
get_source-IsSource_example = get_source-IsSource (codes "80") web web_source

abbrev empty : SocatManager (List ℕ)
empty = record { rules = []; reserved = 1025 ∷ [] }

-- The forward of container 10.
abbrev one : SocatManager (List ℕ)
one = record {
  rules = (80, new_rule (codes "container-10") (codes "172.18.0.2") web (pos 8080)) ∷ [];
  reserved = [];
}

one-IsTable : IsTable one.rules
unfolding new_rule
one-IsTable = record {
  forwards = (
    record {
      source = get_source-IsSource (codes "80") web web_source;
      port = refl;
      name = (codes "container-10", refl);
    },
    tt,
  );
  distinct = (refl, tt);
}

abbrev script : List Op
script =
    sets true (codes "a") (codes "10.0.0.2") (codes "81|udp") (pos 53)
    ∷ removes_all true (codes "container-10")
    ∷ removes false (codes "a") (codes "81") (pos 53)
    ∷ []

calls-IsTable_example : IsTable (calls ports (λ a. true) one script).rules
calls-IsTable_example = calls-IsTable ports (λ a. true) one script one-IsTable

lookup-remove_all_example :
    lookup 80 (remove_all (λ a. true) true (codes "container-2") one).0.rules
    ≡ without (codes "socat-" ++ codes "container-2") (lookup 80 one.rules)
lookup-remove_all_example = lookup-remove_all (λ a. true) (codes "container-2") 80 one one-IsTable

remove-set_port_forward_example :
    let (m', made) =
      set_port_forward ports true (codes "a") (codes "10.0.0.2") (codes "80") (pos 8080) empty in
    let (m'', removed) = remove_port_forward true (codes "a") (codes "80") (pos 8080) m' in
    (made ≡ fine)
    × (lookup 80 m'.rules ≡ some (new_rule (codes "a") (codes "10.0.0.2") web (pos 8080)))
    × (removed ≡ fine)
    × (lookup 443 m''.rules ≡ lookup 443 empty.rules)
remove-set_port_forward_example =
    remove-set_port_forward ports (codes "a") (codes "10.0.0.2") (codes "80") (pos 8080) web empty
      443 web_source refl

reserve-IsReservation_example :
    let (m', found, ok) = reserve ports 3 (1026 ∷ []) empty in
    IsReservation 3 1024 (taken ports (1026 ∷ []) empty) found ok
unfolding taken
reserve-IsReservation_example = reserve-IsReservation ports (1026 ∷ []) 3 empty refl
