-- ===== src/Nft/Dropped.antt =====
-- apps/plugins/nft/plugin/manager.go: which rules DropRules deletes.
use debug_bootstrap.Prelude.{
  Bool, true, false, Option, none, some, List, [], ◌∷◌, ◌++◌, Bytes, ◌≡◌, refl, sym, ap, ◌∙◌,
  nat_beq, bytes_equal, ◌==◌, ◌⊎◌, inl, inr, Bool-cases, Option-cases,
}
use debug_bootstrap.Prelude.Dict.{Dict, lookup}
use debug_bootstrap.Nft.{
  Rule, Chain, Table, Nft, FindError, Delete, handle_in, fill_rules, fill_chains, find_rules,
  of_rules, of_chains, of_tables, run_deletes, drop_rules,
}
use debug_bootstrap.Nft.Plan.{
  demands_rules, demands_chains, demands, chain_at, first_handle, handle_or, answer, both, plan,
  both_empty, plan-append, commands, result-cases,
}

handle_in-first :
    (rules : List Rule) (r : Rule)
    → handle_or r.handle (first_handle r.body rules) ≡ handle_in rules r
unfolding first_handle handle_in
handle_in-first [] r = refl
handle_in-first (rr ∷ rules) r = elim (Bool-cases (rr.body == r.body)) [
  | inl x ↦ rw x refl
  | inr x ↦ rw x (handle_in-first rules r)
]

fill_rules-plan :
    (present : Nft) (family tn cn : Bytes) (c : Chain) (rules : List Rule)
    → chain_at present tn cn ≡ some c
    → commands (of_rules family tn cn) (fill_rules c.rules rules)
      ≡ plan present (demands_rules family tn cn rules)
unfolding fill_rules plan demands_rules of_rules answer both
fill_rules-plan present family tn cn c [] h = refl
fill_rules-plan present family tn cn c (r ∷ rs) h =
    let rest = fill_rules-plan present family tn cn c rs h in
    elim (Bool-cases (nat_beq (handle_in c.rules r) 0)) [
      | inl z ↦ rw (fill_rules, z, plan, answer, h, handle_in-first c.rules r, z) refl
      | inr z ↦ elim (result-cases (fill_rules c.rules rs)) [
        | inl (e, x) ↦
            let missing : plan present (demands_rules family tn cn rs) ≡ none =
              sym rest ∙ rw x refl in
            rw (fill_rules, z, x, answer, h, handle_in-first c.rules r, z, missing) refl
        | inr (filled, x) ↦
            let planned : plan present (demands_rules family tn cn rs)
                ≡ some (of_rules family tn cn filled) =
              sym rest ∙ rw x refl in
            rw (fill_rules, z, x, answer, h, handle_in-first c.rules r, z, planned) refl
      ]
    ]

-- The commands of two parts, when the second is only looked for behind the first
commands-both :
    {X Y Z : Type 0} (f : X → List Delete) (g : Y → List Delete) (join : Z → List Delete)
    (pair : X → Y → Z) (a : FindError ⊎ X) (b : FindError ⊎ Y)
    → ((x : X) (y : Y) → join (pair x y) ≡ f x ++ g y)
    → commands join
        (elim a [ inl e ↦ inl e | inr x ↦ elim b [ inl e ↦ inl e | inr y ↦ inr (pair x y) ] ])
      ≡ both (commands f a) (commands g b)
unfolding both
commands-both f g join pair (inl e) b h = refl
commands-both f g join pair (inr x) (inl e) h = refl
commands-both f g join pair (inr x) (inr y) h = ap some (h x y)

fill_chains-plan :
    (present : Nft) (family tn : Bytes) (t : Table) (chains : Dict Bytes Chain)
    → lookup tn present ≡ some t
    → commands (of_chains family tn) (fill_chains tn t.chains chains)
      ≡ plan present (demands_chains family tn chains)
unfolding fill_chains plan demands_chains of_chains answer both chain_at
fill_chains-plan present family tn t [] h = refl
fill_chains-plan present family tn t ((cn, c) ∷ chains) h =
    elim (Option-cases (lookup cn t.chains)) [
      | inl x ↦ rw (fill_chains, x, answer, chain_at, h, x) refl
      | inr (there, x) ↦
          let at : chain_at present tn cn ≡ some there = rw (chain_at, h) x in
          let rules = demands_rules family tn cn c.rules in
          let chained = demands_chains family tn chains in
          let first = fill_rules-plan present family tn cn there c.rules at in
          let rest = fill_chains-plan present family tn t chains h in
          rw (fill_chains, x, answer, at)
            (commands-both (of_rules family tn cn) (of_chains family tn) (of_chains family tn)
                (λ filled rest. (cn, record c { rules = filled }) ∷ rest)
                (fill_rules there.rules c.rules) (fill_chains tn t.chains chains)
                (λ filled rest. refl)
              ∙ rw (first, rest) (sym (plan-append present rules chained))
              ∙ sym (both_empty (plan present (rules ++ chained))))
    ]

find_rules-plan :
    (present sub : Nft) → commands of_tables (find_rules present sub) ≡ plan present (demands sub)
unfolding find_rules plan demands of_tables answer both
find_rules-plan present [] = refl
find_rules-plan present ((tn, t) ∷ sub) = elim (Option-cases (lookup tn present)) [
  | inl x ↦ rw (find_rules, x, answer) refl
  | inr (there, x) ↦
      let chains = demands_chains t.family tn t.chains in
      let first = fill_chains-plan present t.family tn there t.chains x in
      let rest = find_rules-plan present sub in
      rw (find_rules, x, answer)
        (commands-both (of_chains t.family tn) of_tables of_tables
            (λ filled rest. (tn, record t { chains = filled }) ∷ rest)
            (fill_chains tn there.chains t.chains) (find_rules present sub) (λ filled rest. refl)
          ∙ rw (first, rest) (sym (plan-append present chains (demands sub)))
          ∙ sym (both_empty (plan present (chains ++ demands sub))))
]

-- What comes of commands that are run one after the other, until one of them fails: what those before
-- it did stays done.
pub data Ran {K : Type 0} (drop : Delete → K → Option K) : List Delete → K → K × Bool → Type 0 where
  finished : (k : K) → Ran drop [] k (k, true)
  failed :
      (d : Delete) (ds : List Delete) (k : K) → drop d k ≡ none → Ran drop (d ∷ ds) k (k, false)
  next :
      (d : Delete) (ds : List Delete) (k k' : K) (result : K × Bool)
      → drop d k ≡ some k'
      → Ran drop ds k' result
      → Ran drop (d ∷ ds) k result

-- Nothing is done without a plan.
abbrev pub CarriedOut :
    {K : Type 0} → (Delete → K → Option K) → Option (List Delete) → K → K × Bool → Type 0
CarriedOut drop none k result = result ≡ (k, false)
CarriedOut drop (some ds) k result = Ran drop ds k result

module _ {K : Type 0} (get : K → Option Nft) (drop : Delete → K → Option K) where
  run_deletes-Ran : (ds : List Delete) (k : K) → Ran drop ds k (run_deletes get drop ds k)
  unfolding run_deletes
  run_deletes-Ran [] k = finished k
  run_deletes-Ran (d ∷ ds) k = elim (Option-cases (drop d k)) [
    | inl e ↦ rw (run_deletes, e) (failed d ds k e)
    | inr (k', e) ↦
        rw (run_deletes, e) (next d ds k k' (run_deletes get drop ds k') e (run_deletes-Ran ds k'))
  ]

  -- When the ruleset can be read, DropRules plans one command for each rule it is given, in their
  -- order, if the ruleset has each of the tables and chains and there is a handle for each rule: that
  -- of the first rule with its body in its chain, or else its own. Without a plan it runs no command,
  -- and gives an error. Otherwise it runs the commands of the plan one after the other until one
  -- fails: it gives an error exactly if one fails, and the commands before that one stay done.
  pub drop_rules-plan :
      (sub present : Nft) (k : K)
      → get k ≡ some present
      → CarriedOut drop (plan present (demands sub)) k (drop_rules get drop sub k)
  unfolding drop_rules
  drop_rules-plan sub present k h = elim (result-cases (find_rules present sub)) [
    | inl (e, x) ↦
        let missing : plan present (demands sub) ≡ none =
          sym (find_rules-plan present sub) ∙ rw x refl in
        rw (drop_rules, h, x, missing) refl
    | inr (found, x) ↦
        let planned : plan present (demands sub) ≡ some (of_tables found) =
          sym (find_rules-plan present sub) ∙ rw x refl in
        rw (drop_rules, h, x, planned) (run_deletes-Ran (of_tables found) k)
  ]
