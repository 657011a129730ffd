-- ===== src/Nft/Text/Named.antt =====
-- When MarshalText of apps/plugins/nft/types.go gives a text.
use debug_bootstrap.Prelude.{
  ◌≡◌, ◌≢◌, refl, Option, none, some, [], ◌∷◌, ◌++◌, Bytes, codes, bytes_equal, bytes_eq_iff, ◌==◌,
  Bool-cases, inl, inr, All, ◌↔◌,
}
use debug_bootstrap.Prelude.Dict.{Dict}
use debug_bootstrap.Nft.{Chain, Table, Nft}
use debug_bootstrap.Nft.Text.{
  newline, marshal_chain, marshal_sets, put_front, marshal_chains, close_table, marshal_table, both,
  marshal_text,
}

-- A table that can be written: it and its chains have names, and it has a family.
abbrev pub IsNamed : Bytes × Table → Type 0
IsNamed (name, t) = (name ≢ []) × (t.family ≢ []) × All (λ (c : Bytes × Chain). c.0 ≢ []) t.chains

abbrev Gives : Option Bytes → Type 0
Gives answer = (text : Bytes) × (answer ≡ some text)

put_front-Gives : (front : Bytes) (o : Option Bytes) → Gives (put_front front o) ↔ Gives o
put_front-Gives front none = (λ (t, e). absurd cc, λ (t, e). absurd cc)
put_front-Gives front (some rest) = (λ (t, e). (rest, refl), λ (t, e). (front ++ rest, refl))

both-Gives : (o p : Option Bytes) → Gives (both o p) ↔ (Gives o × Gives p)
both-Gives none p = (λ (t, e). absurd cc, λ (a, b). absurd (cc a.1))
both-Gives (some front) p =
    (λ g. ((front, refl), (put_front-Gives front p).0 g), λ (a, b). (put_front-Gives front p).1 b)

close_table-Gives : (o : Option Bytes) → Gives (close_table o) ↔ Gives o
unfolding close_table
close_table-Gives none = (λ (t, e). absurd cc, λ (t, e). absurd cc)
close_table-Gives (some body) = (λ g. (body, refl), λ g. (_, refl))

marshal_chains-Gives :
    (chains : Dict Bytes Chain)
    → Gives (marshal_chains chains) ↔ All (λ (c : Bytes × Chain). c.0 ≢ []) chains
unfolding marshal_chains
marshal_chains-Gives [] = (λ g. tt, λ all. ([], refl))
marshal_chains-Gives ((name, c) ∷ chains) = elim (Bool-cases (name == [])) [
  | inl e ↦ rw e (λ (t, g). absurd cc, λ (ne, all). absurd (ne ((bytes_eq_iff name []).0 e)))
  | inr e ↦ rw e (
    λ g. (
      λ empty. absurd (cc (e, (bytes_eq_iff name []).1 empty)),
      (marshal_chains-Gives chains).0
          ((put_front-Gives (marshal_chain name c) (marshal_chains chains)).0 g),
    ),
    λ (ne, all).
        (put_front-Gives (marshal_chain name c) (marshal_chains chains)).1
          ((marshal_chains-Gives chains).1 all),
  )
]

marshal_table-Gives :
    (name : Bytes) (t : Table)
    → Gives (marshal_table name t)
      ↔ ((t.family ≢ []) × All (λ (c : Bytes × Chain). c.0 ≢ []) t.chains)
unfolding marshal_table
marshal_table-Gives name t =
    let front =
      codes "table "
      ++ t.family
      ++ codes " "
      ++ name
      ++ codes " {"
      ++ newline
      ++ marshal_sets t.sets in
    let chains = marshal_chains t.chains in
    let (to, from) = marshal_chains-Gives t.chains in
    elim (Bool-cases (t.family == [])) [
      | inl e ↦
          rw (marshal_table, e)
            (λ (x, g). absurd cc, λ (ne, all). absurd (ne ((bytes_eq_iff t.family []).0 e)))
      | inr e ↦
          rw (marshal_table, e)
            (
              λ g. (
                λ empty. absurd (cc (e, (bytes_eq_iff t.family []).1 empty)),
                to (
                    (put_front-Gives front chains).0
                      ((close_table-Gives (put_front front chains)).0 g)),
              ),
              λ (ne, all).
                  (close_table-Gives (put_front front chains)).1
                    ((put_front-Gives front chains).1 (from all)),
            )
    ]

-- MarshalText gives a text, and no error, exactly when each table has a name and a family and each
-- of its chains has a name.
pub marshal_text-IsNamed :
    (n : Nft) → ((text : Bytes) × (marshal_text n ≡ some text)) ↔ All IsNamed n
unfolding marshal_text
marshal_text-IsNamed [] = (λ g. tt, λ all. ([], refl))
marshal_text-IsNamed ((name, t) ∷ n) =
    let (to, from) = marshal_table-Gives name t in
    let (split_up, together) = both-Gives (marshal_table name t) (marshal_text n) in
    elim (Bool-cases (name == [])) [
      | inl e ↦ rw e (λ (x, g). absurd cc, λ (is, all). absurd (is.0 ((bytes_eq_iff name []).0 e)))
      | inr e ↦ rw e (
        λ g.
            let (first, others) = split_up g in
            let (family, chains) = to first in
            (
              (λ empty. absurd (cc (e, (bytes_eq_iff name []).1 empty)), family, chains),
              (marshal_text-IsNamed n).0 others,
            ),
        λ (is, all). together (from (is.1, is.2), (marshal_text-IsNamed n).1 all),
      )
    ]
