-- ===== src/Socat/Resolve/Admitted.antt =====
-- Which addresses Resolve of apps/plugins/socat/plugin/resolve.go rewrites.
use mathlib.Core.Option.{some-injective}
use debug_bootstrap.Prelude.{
  ℕ, ◌≡◌, ◌≢◌, refl, sym, ◌∙◌, subst, Bool, true, false, Option, none, some, List, [], ◌∷◌, ◌++◌,
  Bytes, codes, bytes_equal, nat_equal, ◌==◌, split_two, split_two-append, split_two-some,
  bytes_eq_iff, has_prefix, IsFreeOf, Bool-cases, Option-cases, inl, inr, ◌⊎◌, ◌↔◌, arith,
}
use debug_bootstrap.Prelude.Dict.{Dict, lookup}
use debug_bootstrap.Socat.Source.{Source, Rule, address_all, get_source, decimal_int}
use debug_bootstrap.Socat.Resolve.{
  Nic, get_interface_match, by_prefix, by_network, admits, resolve_rule, resolve_source, resolve,
}

module _ {I : Type 0} (to_string : I → Bytes) (parse_cidr : Bytes → Option (I → Bool)) where
  -- The source of a forward covers an address of an interface: it is empty or all addresses, the
  -- name of the interface, the address, a network that contains it, or what the name of the
  -- interface begins with, and a star.
  pub data Covers (nic : Bytes) (ip : I) (source : Bytes) : Type 0 where
    nothing : source ≡ [] → Covers nic ip source
    everything : source ≡ codes "0.0.0.0" → Covers nic ip source
    named : source ≡ nic → Covers nic ip source
    same : source ≡ to_string ip → Covers nic ip source
    network : (net : I → Bool) → parse_cidr source ≡ some net → net ip ≡ true → Covers nic ip source
    starred :
        (c : ℕ) (start rest : Bytes)
        → parse_cidr source ≡ none
        → source ≡ c ∷ start ++ b'*' ∷ rest
        → IsFreeOf b'*' (c ∷ start)
        → has_prefix nic (c ∷ start) ≡ true
        → Covers nic ip source

  by_prefix-Covers :
      (source nic : Bytes) (ip : I) (parts : Bytes × Option Bytes)
      → parse_cidr source ≡ none
      → ((rest : Bytes)
          → parts.1 ≡ some rest
          → (source ≡ parts.0 ++ b'*' ∷ rest) × IsFreeOf b'*' parts.0)
      → by_prefix to_string parse_cidr nic parts ≡ true
      → Covers nic ip source
  unfolding by_prefix
  by_prefix-Covers source nic ip (first, none) invalid split_at e = absurd cc
  by_prefix-Covers source nic ip ([], some rest) invalid split_at e = absurd cc
  by_prefix-Covers source nic ip (c ∷ first, some rest) invalid split_at e =
      let (equal, free) = split_at rest refl in starred c first rest invalid equal free e

  by_network-Covers :
      (source nic : Bytes) (ip : I)
      → by_network to_string parse_cidr source nic ip ≡ true
      → Covers nic ip source
  unfolding by_network
  by_network-Covers source nic ip e = elim (Option-cases (parse_cidr source)) [
    | inl invalid ↦
        by_prefix-Covers source nic ip (split_two b'*' source) invalid (split_two-some b'*' source)
          (rw (by_network, invalid) at e)
    | inr (net, found) ↦ network net found (rw (by_network, found) at e)
  ]

  Covers-admits :
      (source nic : Bytes) (ip : I)
      → Covers nic ip source
      → admits to_string parse_cidr source nic ip ≡ true
  unfolding admits by_network by_prefix
  Covers-admits source nic ip (nothing e) = ground (arith, (bytes_eq_iff source []).1 e)
  Covers-admits source nic ip (everything e) = ground (arith, (bytes_eq_iff source address_all).1 e)
  Covers-admits source nic ip (named e) = ground (arith, (bytes_eq_iff source nic).1 e)
  Covers-admits source nic ip (same e) = ground (arith, (bytes_eq_iff source (to_string ip)).1 e)
  Covers-admits source nic ip (network net found inside) =
      let works : by_network to_string parse_cidr source nic ip ≡ true =
        rw (by_network, found) inside in
      ground (arith, works)
  Covers-admits source nic ip (starred c start rest invalid e free begins) =
      let parts : split_two b'*' source ≡ (c ∷ start, some rest) =
        rw e (split_two-append b'*' (c ∷ start) rest free) in
      let works : by_network to_string parse_cidr source nic ip ≡ true =
        rw (by_network, invalid, parts) begins in
      ground (arith, works)

  admits-Covers :
      (source nic : Bytes) (ip : I)
      → (admits to_string parse_cidr source nic ip ≡ true) ↔ Covers nic ip source
  unfolding admits by_network by_prefix
  admits-Covers source nic ip = (
    λ e. elim (Bool-cases (source == [])) [
      | inl p ↦ nothing ((bytes_eq_iff source []).0 p)
      | inr p1 ↦ elim (Bool-cases (source == address_all)) [
        | inl p ↦ everything ((bytes_eq_iff source address_all).0 p)
        | inr p2 ↦ elim (Bool-cases (source == nic)) [
          | inl p ↦ named ((bytes_eq_iff source nic).0 p)
          | inr p3 ↦ elim (Bool-cases (source == to_string ip)) [
            | inl p ↦ same ((bytes_eq_iff source (to_string ip)).0 p)
            | inr p4 ↦ by_network-Covers source nic ip (rw (p1, p2, p3, p4) at e)
          ]
        ]
      ]
    ],
    Covers-admits source nic ip,
  )

  -- A forward at the port whose source covers the address
  unfoldable pub Leads : Dict ℕ Rule → ℕ → Bytes → I → Type 0
  Leads rules port nic ip = (r : Rule) × (lookup port rules ≡ some r) × Covers nic ip r.source.ip

  resolve_rule-Leads :
      (rules : Dict ℕ Rule) (port : ℕ) (address nic : Bytes) (ip : I)
      → let answer = resolve_rule to_string parse_cidr address (lookup port rules) (nic, ip) in
        ((r : Rule) × (lookup port rules ≡ some r)
          × Covers nic ip r.source.ip
          × (answer ≡ r.ip ++ codes ":" ++ decimal_int r.port))
        ⊎ (¬ Leads rules port nic ip × (answer ≡ address))
  unfolding resolve_rule Leads
  resolve_rule-Leads rules port address nic ip = elim (Option-cases (lookup port rules)) [
    | inl nobody ↦ rw nobody (inr (λ (r, found, c). absurd cc, refl))
    | inr (r, found) ↦ elim (Bool-cases (admits to_string parse_cidr r.source.ip nic ip)) [
      | inl admitted ↦ inl (
        r,
        found,
        (admits-Covers r.source.ip nic ip).0 admitted,
        rw (found, resolve_rule, admitted) refl,
      )
      | inr refused ↦ inr (
        λ (q, at, c).
            let covers : Covers nic ip r.source.ip =
              subst (λ x. Covers nic ip x.source.ip) (some-injective _ _ (sym at ∙ found)) c in
            absurd (cc (Covers-admits r.source.ip nic ip covers, refused)),
        rw (found, resolve_rule, refused) refl,
      )
    ]
  ]

  -- What Resolve gives for an address whose source is read, whose IP is not empty and stands on an
  -- interface of the host: the IP and port of the forward at its port, if there is one and its
  -- source covers the address of that interface, and otherwise the address unchanged.
  pub resolve-Covers :
      (rules : Dict ℕ Rule) (nics : Option (List (Nic I))) (address : Bytes) (src : Source)
      (nic : Bytes) (ip : I)
      → get_source address ≡ some src
      → src.ip ≢ []
      → get_interface_match to_string src.ip nics ≡ some (nic, ip)
      → let answer = resolve to_string parse_cidr rules nics address in
        ((r : Rule) × (lookup src.port rules ≡ some r)
          × Covers nic ip r.source.ip
          × (answer ≡ r.ip ++ codes ":" ++ decimal_int r.port))
        ⊎ (¬ Leads rules src.port nic ip × (answer ≡ address))
  unfolding resolve resolve_source
  resolve-Covers rules nics address src nic ip read filled local =
      let shut : (src.ip == []) ≡ false = elim (Bool-cases (src.ip == [])) [
        | inl empty ↦ absurd (filled ((bytes_eq_iff src.ip []).0 empty))
        | inr e ↦ e
      ] in
      let runs : resolve to_string parse_cidr rules nics address
          ≡ resolve_rule to_string parse_cidr address (lookup src.port rules) (nic, ip) =
        rw (resolve, read, shut, local) refl in
      elim (resolve_rule-Leads rules src.port address nic ip) [
        | inl (r, found, covers, e) ↦ inl (r, found, covers, runs ∙ e)
        | inr (none_leads, e) ↦ inr (none_leads, runs ∙ e)
      ]
