-- ===== src/Nft/Text.antt =====
-- MarshalText of apps/plugins/nft/types.go: the text of tables for the nft program. A map is gone
-- through in the order of its list; Go's order is random.
pub mod Named
use debug_bootstrap.Prelude.{
  ℕ, suc, ◌%◌, ◌≡◌, ◌≢◌, refl, not, ◌&&◌, Option, none, some, List, [], ◌∷◌, ◌++◌, length, Bytes,
  codes, bytes_equal, bytes_eq_iff, ◌==◌, nat_beq, if◌then◌else◌, Bool-cases, inl, inr, All, ◌↔◌,
}
use debug_bootstrap.Prelude.Dict.{Dict}
use debug_bootstrap.Socat.Source.{decimal_int}
use debug_bootstrap.Nft.{Rule, Chain, Table, Nft}

abbrev pub tab : Bytes
tab = 9 ∷ []

abbrev pub newline : Bytes
newline = 10 ∷ []

-- The loop over the elements of a set, from the index i on, up to the last one
unfoldable pub marshal_elements : ℕ → List Bytes → Bytes
marshal_elements i [] = []
marshal_elements i (elem ∷ []) = codes " " ++ elem ++ codes " }" ++ newline
marshal_elements i (elem ∷ next ∷ elems) =
    let rest = marshal_elements (suc i) (next ∷ elems) in
    let line =
      if not (nat_beq i 0) && not (nat_beq (i % 2) 0)
      then newline ++ tab ++ tab ++ codes "            "
      else [] in
    codes " " ++ elem ++ codes "," ++ line ++ rest

-- func (s *Set) marshal
unfoldable pub marshal_set : Bytes → List Bytes → Bytes
unfolding marshal_elements
marshal_set name elements =
    let inside = tab ++ tab ++ codes "elements = {" ++ marshal_elements 0 elements in
    tab
    ++ codes "set "
    ++ name
    ++ codes " {"
    ++ newline
    ++ tab
    ++ tab
    ++ codes "type ipv4_addr"
    ++ newline
    ++ (if nat_beq (length elements) 0 then [] else inside)
    ++ tab
    ++ codes "}"
    ++ newline

unfoldable pub marshal_rules : List Rule → Bytes
marshal_rules [] = []
marshal_rules (r ∷ rs) = tab ++ tab ++ r.body ++ newline ++ marshal_rules rs

-- func (c *Chain) marshal; TypeSkipCreate is the empty type.
unfoldable pub marshal_chain : Bytes → Chain → Bytes
unfolding marshal_rules
marshal_chain name c =
    let head =
      tab
      ++ tab
      ++ codes "type "
      ++ c.kind
      ++ codes " hook "
      ++ c.hook
      ++ codes " priority "
      ++ decimal_int c.priority
      ++ codes "; policy "
      ++ c.policy
      ++ codes ";"
      ++ newline in
    tab
    ++ codes "chain "
    ++ name
    ++ codes " {"
    ++ newline
    ++ (if c.kind == [] then [] else head)
    ++ marshal_rules c.rules
    ++ tab
    ++ codes "}"
    ++ newline

unfoldable pub marshal_sets : Dict Bytes (List Bytes) → Bytes
unfolding marshal_set
marshal_sets [] = []
marshal_sets ((name, elements) ∷ sets) = marshal_set name elements ++ marshal_sets sets

-- What follows, if there was no error
abbrev pub put_front : Bytes → Option Bytes → Option Bytes
put_front front none = none
put_front front (some rest) = some (front ++ rest)

unfoldable pub marshal_chains : Dict Bytes Chain → Option Bytes
unfolding marshal_chain
marshal_chains [] = some []
marshal_chains ((name, c) ∷ chains) =
    if name == [] then none else put_front (marshal_chain name c) (marshal_chains chains)

unfoldable pub close_table : Option Bytes → Option Bytes
close_table none = none
close_table (some body) = some (body ++ codes "}" ++ newline)

-- func (t *Table) marshal
unfoldable pub marshal_table : Bytes → Table → Option Bytes
unfolding marshal_sets marshal_chains close_table
marshal_table name t =
    if t.family == []
    then none
    else close_table (
        put_front
          (codes "table "
            ++ t.family
            ++ codes " "
            ++ name
            ++ codes " {"
            ++ newline
            ++ marshal_sets t.sets)
          (marshal_chains t.chains))

abbrev pub both : Option Bytes → Option Bytes → Option Bytes
both none rest = none
both (some front) rest = put_front front rest

-- func (n Nft) MarshalText; `none` for an error
unfoldable pub marshal_text : Nft → Option Bytes
unfolding marshal_table
marshal_text [] = some []
marshal_text ((name, t) ∷ n) =
    if name == [] then none else both (marshal_table name t) (marshal_text n)
