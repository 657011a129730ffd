-- ===== src/Socat/Forwards/Undo.antt =====
-- A forward of apps/plugins/socat/plugin/socat.go that is set and then removed.
use debug_bootstrap.Prelude.{
  ℕ, ◌≡◌, refl, true, none, some, Bytes, ◌==◌, bytes_equal, nat_equal, nat_beq, nat_beq_iff,
  beq_refl, arith, Bool-cases, inl, inr, ap, ◌∙◌,
}
use debug_bootstrap.Prelude.Int.{ℤ}
use debug_bootstrap.Prelude.Dict.{Dict, lookup, insert, remove, lookup-insert, lookup-remove}
use debug_bootstrap.Socat.Source.{Source, Rule, get_source}
use debug_bootstrap.Socat.Forwards.{
  Cache, SocatManager, fine, forward_id, new_rule, set_rule, set_source, set_port_forward,
  remove_rule, remove_source, remove_port_forward,
}

remove-insert :
    (p q : ℕ) (r : Rule) (t : Dict ℕ Rule)
    → lookup p t ≡ none
    → lookup q (remove p (insert p r t)) ≡ lookup q t
remove-insert p q r t h = elim (Bool-cases (nat_beq p q)) [
  | inl same ↦ ground (
    arith,
    h,
    same,
    lookup-remove p q (insert p r t),
    ap (λ i. lookup i t) ((nat_beq_iff p q).0 same),
  )
  | inr other ↦ ground (arith, other, lookup-remove p q (insert p r t), lookup-insert p q r t)
]

-- Where no rule stands at the port and the firewall agrees, SetPortForward makes the forward, and
-- RemovePortForward with the same namespace, host and destination then removes it: every port has
-- the rule that it had before.
pub remove-set_port_forward :
    {C : Type 0} (cache : Cache C) (namespace ip host : Bytes) (dest : ℤ) (s : Source)
    (m : SocatManager C) (q : ℕ)
    → get_source host ≡ some s
    → lookup s.port m.rules ≡ none
    → let (m', made) = set_port_forward cache true namespace ip host dest m in
      let (m'', removed) = remove_port_forward true namespace host dest m' in
      (made ≡ fine)
      × (lookup s.port m'.rules ≡ some (new_rule namespace ip s dest))
      × (removed ≡ fine)
      × (lookup q m''.rules ≡ lookup q m.rules)
unfolding set_port_forward remove_port_forward set_source remove_source set_rule remove_rule
    new_rule
remove-set_port_forward cache namespace ip host dest s m q src free =
    let r = new_rule namespace ip s dest in
    let found : lookup s.port (insert s.port r m.rules) ≡ some r =
      lookup-insert s.port s.port r m.rules ∙ rw (beq_refl s.port) refl in
    let named : (r.ns == forward_id namespace s.port dest) ≡ true =
      beq_refl (forward_id namespace s.port dest) in
    rw (src, free, found, named) (refl, refl, refl, remove-insert s.port q r m.rules free)
