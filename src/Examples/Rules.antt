-- ===== src/Examples/Rules.antt =====
-- Rules of the firewall that are dropped.
use debug_bootstrap.Prelude.{
  ℕ, ◌≡◌, refl, true, false, Option, none, some, List, [], ◌∷◌, ◌++◌, ◌↔◌, All, Bytes, codes,
  contains, nat_equal, if◌then◌else◌,
}
use debug_bootstrap.Prelude.Int.{pos}
use debug_bootstrap.Nft.{Rule, Nft, Delete, drop_rules}
use debug_bootstrap.Nft.Text.{newline, tab, marshal_elements, marshal_text}
use debug_bootstrap.Nft.Text.Named.{IsNamed, marshal_text-IsNamed}
use debug_bootstrap.Socat.Source.{decimal_int, decimal}
use debug_bootstrap.Nft.Plan.{plan, demands}
use debug_bootstrap.Nft.Dropped.{CarriedOut, drop_rules-plan}

abbrev accepting : ℕ → Rule
accepting h = record { handle = h; body = codes "accept" }

abbrev nat : List Rule → Nft
nat rules =
    (
      codes "nat",
      record {
        family = codes "ip";
        chains =
            (
              codes "pre",
              record {
                kind = codes "nat";
                hook = codes "prerouting";
                priority = pos 0;
                policy = codes "accept";
                rules = rules;
              },
            )
            ∷ [];
        sets = [];
      },
    )
    ∷ []

-- The kernel's state is the list of the handles that are deleted; none is deleted twice.
abbrev delete : Delete → List ℕ → Option (List ℕ)
delete d gone = if contains gone d.handle then none else some (d.handle ∷ gone)

-- The same rule given twice is deleted once, and then there is an error: some, but not all.
drop_rules-twice :
    drop_rules
      (λ gone. some (nat (accepting 7 ∷ [])))
      delete
      (nat (accepting 0 ∷ accepting 0 ∷ []))
      []
    ≡ (7 ∷ [], false)
unfolding drop_rules
drop_rules-twice = refl

-- A rule that the ruleset does not have is taken for found, if it comes with a handle.
drop_rules-stale :
    drop_rules (λ gone. some (nat [])) delete (nat (accepting 9 ∷ [])) [] ≡ (9 ∷ [], true)
unfolding drop_rules
drop_rules-stale = refl

drop_rules-plan_example :
    CarriedOut delete
      (plan (nat (accepting 7 ∷ [])) (demands (nat (accepting 0 ∷ accepting 0 ∷ []))))
      []
      (drop_rules
        (λ gone. some (nat (accepting 7 ∷ [])))
        delete
        (nat (accepting 0 ∷ accepting 0 ∷ []))
        [])
drop_rules-plan_example =
    drop_rules-plan (λ gone. some (nat (accepting 7 ∷ []))) delete
      (nat (accepting 0 ∷ accepting 0 ∷ [])) (nat (accepting 7 ∷ [])) [] refl

-- A set of three addresses takes two lines.
marshal_set-lines :
    marshal_elements 0 (codes "a" ∷ codes "b" ∷ codes "c" ∷ [])
    ≡ codes " a, b," ++ newline ++ tab ++ tab ++ codes "             c }" ++ newline
unfolding marshal_elements
marshal_set-lines = refl

marshal_text-chain :
    marshal_text (nat (accepting 0 ∷ []))
    ≡ some (
        codes "table ip nat {"
        ++ newline
        ++ tab
        ++ codes "chain pre {"
        ++ newline
        ++ tab
        ++ tab
        ++ codes "type nat hook prerouting priority 0; policy accept;"
        ++ newline
        ++ tab
        ++ tab
        ++ codes "accept"
        ++ newline
        ++ tab
        ++ codes "}"
        ++ newline
        ++ codes "}"
        ++ newline)
unfolding marshal_text decimal_int decimal
marshal_text-chain = refl

marshal_text-IsNamed_example :
    ((text : Bytes) × (marshal_text (nat (accepting 0 ∷ [])) ≡ some text))
    ↔ All IsNamed (nat (accepting 0 ∷ []))
marshal_text-IsNamed_example = marshal_text-IsNamed (nat (accepting 0 ∷ []))
