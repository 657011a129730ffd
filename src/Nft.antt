-- ===== src/Nft.antt =====
-- apps/plugins/nft: rules of the firewall, and how they are dropped. The commands of nft, and what
-- it tells of the ruleset, are parameters over the kernel's state. A map is gone through in the order
-- of its list, and findRules, which fills the handles in place, gives the filled rules here.
pub mod Plan
pub mod Dropped
pub mod Text
use debug_bootstrap.Prelude.{
  ℕ, Bool, true, false, Option, none, some, List, [], ◌∷◌, ◌++◌, Bytes, nat_beq, bytes_equal, ◌==◌,
  if◌then◌else◌, ◌⊎◌, inl, inr,
}
use debug_bootstrap.Prelude.Dict.{Dict, lookup}
use debug_bootstrap.Prelude.Int.{ℤ}

-- type Rule struct
pub record Rule : Type 0 where
  pub handle : ℕ
  pub body : Bytes

-- type Chain struct
pub record Chain : Type 0 where
  pub kind : Bytes
  pub hook : Bytes
  pub priority : ℤ
  pub policy : Bytes
  pub rules : List Rule

-- type Table struct; a set is the list of its elements.
pub record Table : Type 0 where
  pub family : Bytes
  pub chains : Dict Bytes Chain
  pub sets : Dict Bytes (List Bytes)

abbrev pub Nft : Type 0
Nft = Dict Bytes Table

pub data FindError : Type 0 where
  table_not_found : Bytes → FindError
  chain_not_found : Bytes → Bytes → FindError
  rule_not_found : Bytes → FindError

-- The innermost loop: the handle of the first rule with the body, or the one that there is.
unfoldable pub handle_in : List Rule → Rule → ℕ
handle_in [] r = r.handle
handle_in (rr ∷ current) r =
    let later = handle_in current r in if rr.body == r.body then rr.handle else later

unfoldable pub fill_rules : List Rule → List Rule → FindError ⊎ List Rule
unfolding handle_in
fill_rules current [] = inr []
fill_rules current (r ∷ rs) =
    let h = handle_in current r in
    elim (nat_beq h 0) [
      | true ↦ inl (rule_not_found r.body)
      | false ↦ elim (fill_rules current rs) [
        | inl e ↦ inl e
        | inr filled ↦ inr (record r { handle = h } ∷ filled)
      ]
    ]

unfoldable pub fill_chains :
    Bytes → Dict Bytes Chain → Dict Bytes Chain → FindError ⊎ Dict Bytes Chain
unfolding fill_rules
fill_chains tn current [] = inr []
fill_chains tn current ((cn, c) ∷ chains) = elim (lookup cn current) [
  | none ↦ inl (chain_not_found cn tn)
  | some there ↦ elim (fill_rules there.rules c.rules) [
    | inl e ↦ inl e
    | inr filled ↦ elim (fill_chains tn current chains) [
      | inl e ↦ inl e
      | inr rest ↦ inr ((cn, record c { rules = filled }) ∷ rest)
    ]
  ]
]

-- findRules: the rules with the handles of the ruleset, or what is not found first.
unfoldable pub find_rules : Nft → Nft → FindError ⊎ Nft
unfolding fill_chains
find_rules present [] = inr []
find_rules present ((tn, t) ∷ sub) = elim (lookup tn present) [
  | none ↦ inl (table_not_found tn)
  | some there ↦ elim (fill_chains tn there.chains t.chains) [
    | inl e ↦ inl e
    | inr filled ↦ elim (find_rules present sub) [
      | inl e ↦ inl e
      | inr rest ↦ inr ((tn, record t { chains = filled }) ∷ rest)
    ]
  ]
]

-- nft delete rule <family> <table> <chain> handle <handle>
pub record Delete : Type 0 where
  pub family : Bytes
  pub table : Bytes
  pub chain : Bytes
  pub handle : ℕ

-- The three loops of DropRules, as the commands in their order
unfoldable pub of_rules : Bytes → Bytes → Bytes → List Rule → List Delete
of_rules family tn cn [] = []
of_rules family tn cn (r ∷ rs) =
    record { family = family; table = tn; chain = cn; handle = r.handle } ∷ of_rules family tn cn rs

unfoldable pub of_chains : Bytes → Bytes → Dict Bytes Chain → List Delete
unfolding of_rules
of_chains family tn [] = []
of_chains family tn ((cn, c) ∷ chains) = of_rules family tn cn c.rules ++ of_chains family tn chains

unfoldable pub of_tables : Nft → List Delete
unfolding of_chains
of_tables [] = []
of_tables ((tn, t) ∷ sub) = of_chains t.family tn t.chains ++ of_tables sub

module _ {K : Type 0} (get : K → Option Nft) (drop : Delete → K → Option K) where
  -- The first command that fails ends the loops.
  unfoldable pub run_deletes : List Delete → K → K × Bool
  run_deletes [] k = (k, true)
  run_deletes (d ∷ ds) k = elim (drop d k) [ none ↦ (k, false) | some k' ↦ run_deletes ds k' ]

  -- DropRules: the kernel afterwards, and whether there was no error.
  unfoldable pub drop_rules : Nft → K → K × Bool
  unfolding find_rules of_tables run_deletes
  drop_rules sub k = elim (get k) [
    | none ↦ (k, false)
    | some present ↦ elim (find_rules present sub) [
      | inl e ↦ (k, false)
      | inr found ↦ run_deletes (of_tables found) k
    ]
  ]
