-- ===== src/Socat/Forwards/Namespace.antt =====
-- Which rules RemoveAll of apps/plugins/socat/plugin/socat.go takes out of the table.
use debug_bootstrap.Prelude.{
  ℕ, ◌≡◌, refl, sym, subst, ap, ◌∙◌, Bool, true, false, Option, none, some, List, [], ◌∷◌, ◌++◌,
  Bytes, codes, has_prefix, if◌then◌else◌, nat_equal, nat_beq, nat_beq_iff, contains, arith,
  Bool-cases, inl, inr, append_assoc,
}
use debug_bootstrap.Prelude.Int.{ℤ}
use debug_bootstrap.Prelude.Dict.{Dict, lookup, remove, lookup-remove}
use debug_bootstrap.Socat.Source.{
  Rule, rule, match, rules, rules_from, matches, matches_from, decimal, decimal_int,
}
use debug_bootstrap.Socat.Source.Accepted.{IsNonEmpty}
use debug_bootstrap.Socat.Forwards.{
  SocatManager, forward_id, in_namespace, remove_ports, drop_found, remove_all,
}
use debug_bootstrap.Socat.Forwards.Kept.{Forwards, IsDistinct, IsTable}

-- The entry of a port when the rules whose name has the prefix are gone.
abbrev pub without : Bytes → Option Rule → Option Rule
without prefix none = none
without prefix (some r) = if has_prefix r.ns prefix then none else some r

abbrev has_prefixed : Bytes → Option Rule → Bool
has_prefixed prefix none = false
has_prefixed prefix (some r) = has_prefix r.ns prefix

lookup-remove_ports :
    (ps : List ℕ) (p : ℕ) (t : Dict ℕ Rule)
    → lookup p (remove_ports ps t) ≡ (if contains ps p then none else lookup p t)
unfolding remove_ports
lookup-remove_ports [] p t = refl
lookup-remove_ports (q ∷ ps) p t =
    ground (arith, lookup-remove_ports ps p (remove q t), lookup-remove q p t)

contains-in_namespace :
    (ia : Bytes → Bool) (prefix : Bytes) (p : ℕ) (t : Dict ℕ Rule)
    → IsDistinct t
    → contains (in_namespace ia prefix t).0 p ≡ has_prefixed prefix (lookup p t)
unfolding in_namespace
contains-in_namespace ia prefix p [] d = refl
contains-in_namespace ia prefix p ((q, r) ∷ t) d =
    let rest = contains-in_namespace ia prefix p t d.1 in
    elim (Bool-cases (has_prefix r.ns prefix)) [
      | inl pre ↦ rw pre (ground (arith, rest, pre))
      | inr off ↦ elim (Bool-cases (nat_beq q p)) [
        | inr other ↦ rw (off, other) rest
        | inl same ↦
            let none_here : lookup p t ≡ none =
              subst (λ i. lookup i t ≡ none) ((nat_beq_iff q p).0 same) d.0 in
            rw (off, same) (rest ∙ rw (none_here, off) refl)
      ]
    ]

-- A rule with a protocol is at least one rule of the firewall.
rules-IsNonEmpty :
    (ia : Bytes → Bool) (r : Rule) → IsNonEmpty r.source.protocols → IsNonEmpty (rules ia r)
unfolding rules rules_from matches matches_from
rules-IsNonEmpty ia r (q, qs, e) = (
  rule ia r (match ia r.source q),
  rules_from ia r (matches_from ia r.source qs),
  ap (λ ps. rules_from ia r (matches_from ia r.source ps)) e,
)

bodies-in_namespace :
    (ia : Bytes → Bool) (prefix : Bytes) (t : Dict ℕ Rule)
    → Forwards t
    → (in_namespace ia prefix t).1 ≡ []
    → (in_namespace ia prefix t).0 ≡ []
unfolding in_namespace
bodies-in_namespace ia prefix [] h e = refl
bodies-in_namespace ia prefix ((q, r) ∷ t) h e = elim (Bool-cases (has_prefix r.ns prefix)) [
  | inl pre ↦
      let (b, bs, body) = rules-IsNonEmpty ia r (h.0).source.some_protocol in
      absurd (ground (arith, e, pre, body))
  | inr off ↦ rw off (bodies-in_namespace ia prefix t h.1 (rw off at e))
]

without_lem :
    (prefix : Bytes) (o : Option Rule)
    → (if has_prefixed prefix o then none else o) ≡ without prefix o
without_lem prefix none = refl
without_lem prefix (some r) = refl

module _ {C : Type 0} where
  lookup-drop_found :
      (p : ℕ) (ports : List ℕ) (bodies : List Bytes) (m : SocatManager C)
      → (bodies ≡ [] → ports ≡ [])
      → lookup p (drop_found true (ports, bodies) m).0.rules
        ≡ (if contains ports p then none else lookup p m.rules)
  unfolding drop_found
  lookup-drop_found p ports [] m h = rw (h refl) refl
  lookup-drop_found p ports (b ∷ bs) m h = lookup-remove_ports ports p m.rules

  -- When the firewall agrees, RemoveAll takes out of a table in order exactly the rules whose name
  -- begins with "socat-" and the namespace: every other port keeps its rule.
  pub lookup-remove_all :
      (ia : Bytes → Bool) (namespace : Bytes) (p : ℕ) (m : SocatManager C)
      → IsTable m.rules
      → lookup p (remove_all ia true namespace m).0.rules
        ≡ without (codes "socat-" ++ namespace) (lookup p m.rules)
  unfolding remove_all
  lookup-remove_all ia namespace p m h =
      let prefix = codes "socat-" ++ namespace in
      let found = in_namespace ia prefix m.rules in
      lookup-drop_found p found.0 found.1 m (bodies-in_namespace ia prefix m.rules h.forwards)
      ∙ ap (λ b. if b then none else lookup p m.rules)
          (contains-in_namespace ia prefix p m.rules h.distinct)
      ∙ without_lem prefix (lookup p m.rules)

has_prefix-append : (pre s : Bytes) → has_prefix (pre ++ s) pre ≡ true
unfolding has_prefix
has_prefix-append [] s = refl
has_prefix-append (c ∷ pre) s = ground (arith, has_prefix-append pre s)

has_prefix-longer : (s t pre : Bytes) → has_prefix s pre ≡ true → has_prefix (s ++ t) pre ≡ true
unfolding has_prefix
has_prefix-longer [] [] [] h = refl
has_prefix-longer [] (x ∷ t) [] h = refl
has_prefix-longer [] t (c ∷ pre) h = absurd (ground arith)
has_prefix-longer (x ∷ s) t [] h = refl
has_prefix-longer (x ∷ s) t (c ∷ pre) h = ground (arith, h, has_prefix-longer s t pre)

-- RemoveAll for a namespace takes out the rules of every namespace that begins with its name too:
-- the forwards of "container-10" go with those of "container-1".
pub remove_all-extension :
    {C : Type 0} (ia : Bytes → Bool) (namespace more : Bytes) (p : ℕ) (dest : ℤ) (r : Rule)
    (m : SocatManager C)
    → IsTable m.rules
    → lookup p m.rules ≡ some r
    → r.ns ≡ forward_id (namespace ++ more) p dest
    → lookup p (remove_all ia true namespace m).0.rules ≡ none
unfolding forward_id
remove_all-extension ia namespace more p dest r m h e n =
    let prefix = codes "socat-" ++ namespace in
    let start = prefix ++ more in
    let host = start ++ codes "-" ++ decimal p in
    let longer : has_prefix (host ++ codes "-" ++ decimal_int dest) prefix ≡ true =
      has_prefix-longer (host ++ codes "-") (decimal_int dest) prefix (
        has_prefix-longer host (codes "-") prefix (
          has_prefix-longer (start ++ codes "-") (decimal p) prefix
            (has_prefix-longer start (codes "-") prefix (has_prefix-append prefix more)))) in
    let found : has_prefix r.ns prefix ≡ true =
      ap (λ s. has_prefix s prefix) n
      ∙ ap (λ s. has_prefix (s ++ codes "-" ++ decimal p ++ codes "-" ++ decimal_int dest) prefix)
          (sym (append_assoc (codes "socat-") namespace more))
      ∙ longer in
    lookup-remove_all ia namespace p m h ∙ ap (without prefix) e ∙ rw found refl
