-- ===== src/Mgr/Stats.antt =====
-- base/mgr/pm.go, `handleStatsMessage`: a statistic that a job says, "key:value|type|tags". Numbers
-- are floats: a type of numbers, with the parser for them.
pub mod Parsed
use debug_bootstrap.Prelude.{
  Bool, true, false, Option, none, some, List, [], ◌∷◌, ◌++◌, Bytes, codes, split, split_two,
  nat_beq, if◌then◌else◌, ◌==◌, bytes_equal,
}

-- type Tag struct of base/pm/aggregate.go
pub record Tag : Type 0 where
  pub key : Bytes
  pub value : Bytes

-- What Aggregate is called with: the type, the key, the value, the id and the tags. An index out of
-- range is a panic, from which the job's callback recovers.
pub data Handled (V : Type 0) : Type 0 where
  aggregated : (op key : Bytes) → V → (id : Bytes) → List Tag → Handled V
  not_number panicked : Handled V

-- strings.Trim(s, " ")
unfoldable pub trim_left : Bytes → Bytes
trim_left [] = []
trim_left (c ∷ s) = let rest = trim_left s in if nat_beq c b' ' then rest else c ∷ s

-- The last byte goes with those behind it, if all of them are spaces.
unfoldable pub trim_right : Bytes → Bytes
trim_right [] = []
trim_right (c ∷ s) = elim (trim_right s) [
  | [] ↦ if nat_beq c b' ' then [] else c ∷ []
  | d ∷ rest ↦ c ∷ d ∷ rest
]

unfoldable pub trim : Bytes → Bytes
trim s = trim_right (trim_left s)

unfoldable pub value_of : Option Bytes → Bytes
value_of none = []
value_of (some v) = v

-- One entry of the loop over the tags: the id, or a tag more.
unfoldable pub read_tag : Bytes × Option Bytes → Bytes × List Tag → Bytes × List Tag
unfolding value_of
read_tag (k, v) (id, tags) =
    if k == codes "id"
    then (value_of v, tags)
    else (id, tags ++ record { key = k; value = value_of v } ∷ [])

unfoldable pub read_tags : List Bytes → Bytes × List Tag → Bytes × List Tag
unfolding read_tag
read_tags [] r = r
read_tags (p ∷ ps) r = read_tags ps (read_tag (split_two b'=' p) r)

-- The third part, of three.
unfoldable pub tags_text : List Bytes → Bytes
tags_text (tags ∷ []) = tags
tags_text _ = []

module _ {V : Type 0} (parse : Bytes → Option V) where
  unfoldable pub with_value : Bytes → Bytes → Bytes × List Tag → Option V → Handled V
  with_value op key (id, tags) none = not_number
  with_value op key (id, tags) (some v) = aggregated op key v id tags

  -- The key and the value: without a value this is a panic; what a third part says is ignored.
  unfoldable pub key_value : Bytes → Bytes × List Tag → List Bytes → Handled V
  unfolding with_value
  key_value op tags [] = panicked
  key_value op tags (key ∷ []) = panicked
  key_value op tags (key ∷ value ∷ rest) = with_value op (trim key) tags (parse value)

  -- The parts between the bars.
  unfoldable pub from_parts : List Bytes → Handled V
  unfolding key_value tags_text
  from_parts [] = panicked
  from_parts (entry ∷ []) = panicked
  from_parts (entry ∷ op ∷ rest) =
      key_value op (read_tags (split b',' (tags_text rest)) ([], [])) (split b':' entry)

  unfoldable pub handle_stats_message : Bytes → Handled V
  unfolding from_parts
  handle_stats_message message = from_parts (split b'|' message)
