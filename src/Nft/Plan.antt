-- ===== src/Nft/Plan.antt =====
-- What a set of rules asks of the ruleset (apps/plugins/nft/plugin/manager.go), and the commands for it.
use debug_bootstrap.Prelude.{
  ℕ, Option, none, some, List, [], ◌∷◌, ◌++◌, Bytes, ◌≡◌, refl, sym, ap, ◌∙◌, append_assoc, nat_beq,
  bytes_equal, ◌==◌, if◌then◌else◌, ◌⊎◌, inl, inr,
}
use debug_bootstrap.Prelude.Dict.{Dict, lookup}
use debug_bootstrap.Nft.{Rule, Chain, Nft, FindError, Delete}

-- What a set of rules asks of the ruleset, in its order: each of its tables, each chain of a table,
-- and each rule of a chain.
pub data Demand : Type 0 where
  a_table : Bytes → Demand
  a_chain : Bytes → Bytes → Demand
  a_rule : Bytes → Bytes → Bytes → Rule → Demand

unfoldable pub demands_rules : Bytes → Bytes → Bytes → List Rule → List Demand
demands_rules family tn cn [] = []
demands_rules family tn cn (r ∷ rs) = a_rule family tn cn r ∷ demands_rules family tn cn rs

unfoldable pub demands_chains : Bytes → Bytes → Dict Bytes Chain → List Demand
unfolding demands_rules
demands_chains family tn [] = []
demands_chains family tn ((cn, c) ∷ chains) =
    a_chain tn cn ∷ (demands_rules family tn cn c.rules ++ demands_chains family tn chains)

unfoldable pub demands : Nft → List Demand
unfolding demands_chains
demands [] = []
demands ((tn, t) ∷ sub) = a_table tn ∷ (demands_chains t.family tn t.chains ++ demands sub)

-- The chain of the ruleset
unfoldable pub chain_at : Nft → Bytes → Bytes → Option Chain
chain_at present tn cn = elim (lookup tn present) [ none ↦ none | some t ↦ lookup cn t.chains ]

-- The handle of the first rule with the body
unfoldable pub first_handle : Bytes → List Rule → Option ℕ
first_handle body [] = none
first_handle body (rr ∷ rules) =
    let later = first_handle body rules in if rr.body == body then some rr.handle else later

abbrev pub handle_or : ℕ → Option ℕ → ℕ
handle_or own none = own
handle_or own (some h) = h

-- A table and a chain need nothing deleted. A rule is deleted by the handle of the first rule with
-- its body in its chain, or by its own, where there is none; the handle 0 is none.
unfoldable pub answer : Nft → Demand → Option (List Delete)
unfolding chain_at first_handle
answer present (a_table tn) = elim (lookup tn present) [ none ↦ none | some t ↦ some [] ]
answer present (a_chain tn cn) = elim (chain_at present tn cn) [ none ↦ none | some c ↦ some [] ]
answer present (a_rule family tn cn r) = elim (chain_at present tn cn) [
  | none ↦ none
  | some c ↦
      let h = handle_or r.handle (first_handle r.body c.rules) in
      if nat_beq h 0
      then none
      else some (record { family = family; table = tn; chain = cn; handle = h } ∷ [])
]

unfoldable pub both : Option (List Delete) → Option (List Delete) → Option (List Delete)
both none more = none
both (some ds) none = none
both (some ds) (some more) = some (ds ++ more)

-- The commands for all demands, if each can be met
unfoldable pub plan : Nft → List Demand → Option (List Delete)
unfolding answer both
plan present [] = some []
plan present (d ∷ ds) = both (answer present d) (plan present ds)

pub both_assoc : (a b c : Option (List Delete)) → both (both a b) c ≡ both a (both b c)
unfolding both
both_assoc none b c = refl
both_assoc (some a) none c = refl
both_assoc (some a) (some b) none = refl
both_assoc (some a) (some b) (some c) = ap some (append_assoc a b c)

pub both_empty : (o : Option (List Delete)) → both (some []) o ≡ o
unfolding both
both_empty none = refl
both_empty (some ds) = refl

pub plan-append :
    (present : Nft) (xs ys : List Demand)
    → plan present (xs ++ ys) ≡ both (plan present xs) (plan present ys)
unfolding plan
plan-append present [] ys = sym (both_empty (plan present ys))
plan-append present (d ∷ xs) ys =
    ap (both (answer present d)) (plan-append present xs ys)
    ∙ sym (both_assoc (answer present d) (plan present xs) (plan present ys))

abbrev pub commands : {X : Type 0} → (X → List Delete) → FindError ⊎ X → Option (List Delete)
commands f (inl e) = none
commands f (inr x) = some (f x)

pub result-cases :
    {X : Type 0} (o : FindError ⊎ X) → ((e : FindError) × (o ≡ inl e)) ⊎ ((x : X) × (o ≡ inr x))
result-cases (inl e) = inl (e, refl)
result-cases (inr x) = inr (x, refl)
