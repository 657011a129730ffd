-- ===== src/Socat/Resolve.antt =====
-- apps/plugins/socat/plugin/resolve.go: the address that a forward leads to. The host's network
-- interfaces, net.ParseCIDR and the texts of addresses are arguments.
pub mod Admitted
use debug_bootstrap.Prelude.{
  ℕ, Bool, true, false, Option, none, some, List, [], ◌∷◌, ◌++◌, Bytes, codes, bytes_equal,
  nat_equal, ◌==◌, if◌then◌else◌, ◌&&◌, ◌||◌, split_two, has_prefix,
}
use debug_bootstrap.Prelude.Dict.{Dict, lookup}
use debug_bootstrap.Socat.Source.{Source, Rule, address_all, get_source, decimal, decimal_int}

-- A network interface: its addresses, unless they cannot be read, of which some are no *net.IPNet
pub record Nic (I : Type 0) : Type 0 where
  pub name : Bytes
  pub addrs : Option (List (Option I))

module _ {I : Type 0} (to_string : I → Bytes) where
  unfoldable pub addr_match : Bytes → List (Option I) → Option I
  addr_match ip [] = none
  addr_match ip (none ∷ addrs) = addr_match ip addrs
  addr_match ip (some a ∷ addrs) = if to_string a == ip then some a else addr_match ip addrs

  -- What one interface gives: an error ends the search
  unfoldable pub nic_match : Bytes → List (Nic I) → Option (Bytes × I)
  unfolding addr_match
  nic_match ip [] = none
  nic_match ip (nic ∷ nics) =
      let rest = nic_match ip nics in
      elim nic.addrs [
        | none ↦ none
        | some addrs ↦ elim (addr_match ip addrs) [ none ↦ rest | some a ↦ some (nic.name, a) ]
      ]

  -- getInterfaceMatch; `none` for an error
  unfoldable pub get_interface_match : Bytes → Option (List (Nic I)) → Option (Bytes × I)
  unfolding nic_match
  get_interface_match ip none = none
  get_interface_match ip (some nics) = nic_match ip nics

  -- getRoutingInterface: the same search for a network that contains the address
  unfoldable pub routing_addr : (I → Bool) → List (Option I) → Option I
  routing_addr contains_it [] = none
  routing_addr contains_it (none ∷ addrs) = routing_addr contains_it addrs
  routing_addr contains_it (some a ∷ addrs) =
      if contains_it a then some a else routing_addr contains_it addrs

  unfoldable pub routing_nic : (I → Bool) → List (Nic I) → Option (Bytes × I)
  unfolding routing_addr
  routing_nic contains_it [] = none
  routing_nic contains_it (nic ∷ nics) =
      let rest = routing_nic contains_it nics in
      elim nic.addrs [
        | none ↦ none
        | some addrs ↦ elim (routing_addr contains_it addrs) [
          | none ↦ rest
          | some a ↦ some (nic.name, a)
        ]
      ]

  unfoldable pub get_routing_interface : (I → Bool) → Option (List (Nic I)) → Option (Bytes × I)
  unfolding routing_nic
  get_routing_interface contains_it none = none
  get_routing_interface contains_it (some nics) = routing_nic contains_it nics

  module _ (parse_cidr : Bytes → Option (I → Bool)) where
    -- The last tests of Resolve: a network, or a prefix of the interface's name before a star
    unfoldable pub by_prefix : Bytes → Bytes × Option Bytes → Bool
    by_prefix nic (first, none) = false
    by_prefix nic ([], some rest) = false
    by_prefix nic (c ∷ first, some rest) = has_prefix nic (c ∷ first)

    unfoldable pub by_network : Bytes → Bytes → I → Bool
    unfolding by_prefix
    by_network source nic ip = elim (parse_cidr source) [
      | some network ↦ network ip
      | none ↦ by_prefix nic (split_two b'*' source)
    ]

    -- Does the forward take what comes to this address of this interface?
    unfoldable pub admits : Bytes → Bytes → I → Bool
    unfolding by_network
    admits source nic ip =
        if source == [] || (source == address_all || (source == nic || source == to_string ip))
        then true
        else by_network source nic ip

    unfoldable pub resolve_rule : Bytes → Option Rule → Bytes × I → Bytes
    unfolding admits
    resolve_rule address none (nic, ip) = address
    resolve_rule address (some dst) (nic, ip) =
        if admits dst.source.ip nic ip then dst.ip ++ codes ":" ++ decimal_int dst.port else address

    unfoldable pub resolve_source : Bytes → Dict ℕ Rule → Option (List (Nic I)) → Source → Bytes
    unfolding resolve_rule get_interface_match
    resolve_source address rules nics src =
        if src.ip == [] then address else elim (get_interface_match src.ip nics) [
          | none ↦ address
          | some found ↦ resolve_rule address (lookup src.port rules) found
        ]

    -- func (s *socatManager) Resolve
    unfoldable pub resolve : Dict ℕ Rule → Option (List (Nic I)) → Bytes → Bytes
    unfolding resolve_source
    resolve rules nics address = elim (get_source address) [
      | none ↦ address
      | some src ↦ resolve_source address rules nics src
    ]

    -- func (s *socatManager) ResolveURL, over what net/url says of a URL; whether there was no error
    module _ {U : Type 0} (parse : Bytes → Option U) (host port scheme print : U → Bytes)
        (with_host : Bytes → U → U) (lookup_port : Bytes → Option ℕ) where
      unfoldable pub host_and_port : U → Option Bytes
      host_and_port u =
          if port u == []
          then elim (lookup_port (scheme u)) [
            | none ↦ none
            | some p ↦ some (host u ++ codes ":" ++ decimal p)
          ]
          else some (host u)

      unfoldable pub resolve_url : Dict ℕ Rule → Option (List (Nic I)) → Bytes → Bytes × Bool
      unfolding host_and_port resolve
      resolve_url rules nics raw = elim (parse raw) [
        | none ↦ (raw, false)
        | some u ↦ elim (host_and_port u) [
          | none ↦ (raw, false)
          | some address ↦ (print (with_host (resolve rules nics address) u), true)
        ]
      ]
