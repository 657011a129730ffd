-- ===== src/Examples/Samples.antt =====
-- Statistics of the aggregator, over natural numbers in place of floats.
use debug_bootstrap.Prelude.{
  ℕ, ◌+◌, ◌-◌, ◌/◌, ◌≡◌, ◌∙◌, ap, refl, sym, Bool-cases, inl, inr, if◌then◌else◌, false, Option,
  none, some, List, [], ◌∷◌, ltb, arith, Bytes, codes, bytes_equal,
}
use mathlib.Core.Option.{some-injective}
use debug_bootstrap.Prelude.Dict.{Dict, lookup, insert, lookup-insert}
use debug_bootstrap.Mgr.Stats.{Tag}
use debug_bootstrap.Aggregator.Keeper.{
  Found, tags_with_id, Subject, KeyStore, Json, not_there, there_is, stats_all,
}
use debug_bootstrap.Aggregator.Keeper.Kept.{IsStore, IsRead, Has, remembered, stats_all-feeds}
use debug_bootstrap.Aggregator.{Floats, Sample, State, average, new_sample, new_state, feed_on}
use debug_bootstrap.Aggregator.Group.{Reading, Group, readings, run, last_of, closed_by, run-groups}
use debug_bootstrap.Aggregator.History.{IsState}
use debug_bootstrap.Aggregator.Calls.{feeds, feeds-IsState}

abbrev naturals : Floats ℕ
naturals = record {
  zero = 0;
  add = λ a b. a + b;
  sub = λ a b. a - b;
  div = λ a b. a / b;
  from_nat = λ n. n;
  greater = λ a b. ltb b a;
  is_nan = λ a. false;
}

abbrev at : ℕ → ℕ → Reading ℕ
at now value = record { now = now; value = value }

-- Three values from the second 300 on, and one from the second 600 on.
abbrev day : List (Group ℕ)
day =
    record { period = 300; first = at 310 4; more = at 320 10 ∷ at 599 7 ∷ [] }
    ∷ record { period = 600; first = at 600 1; more = [] }
    ∷ []

abbrev first_sample : Sample ℕ
first_sample = record { avg = 7; total = 21; max = 10; count = 3; start = 300 }

day-closed : closed_by naturals (new_sample naturals) day ≡ new_sample naturals ∷ first_sample ∷ []
day-closed = refl

run-groups_example :
    run naturals 300 (new_sample naturals) (readings day)
    ≡ (last_of naturals (new_sample naturals) day, closed_by naturals (new_sample naturals) day)
unfolding new_sample
run-groups_example =
    run-groups naturals 300 (new_sample naturals) day
      ((refl, (refl, (refl, tt)), omega arith), ((refl, tt, omega arith), tt))
      (omega arith, (omega arith, tt))

feeds-IsState_example : IsState (
    feeds naturals
      (new_state naturals average (300 ∷ 3600 ∷ []))
      ((310, 4) ∷ (620, 10) ∷ (400, 3) ∷ (1000, 2) ∷ []))
feeds-IsState_example =
    feeds-IsState naturals average (300 ∷ 3600 ∷ [])
      ((310, 4) ∷ (620, 10) ∷ (400, 3) ∷ (1000, 2) ∷ [])

abbrev found_of : Option (Option (State ℕ)) → Found (Option (State ℕ))
found_of none = not_there
found_of (some v) = there_is v

-- A database of states, where a queue holds its newest point
abbrev states : KeyStore (Option (State ℕ)) (Dict Bytes (Option (State ℕ)))
states = record { get_key = λ k d. found_of (lookup k d); set_key = insert; rpush = insert }

-- A last value over 100 cannot be written.
abbrev small_json : Json (Option (State ℕ)) ℕ
small_json = record {
  encode = λ s. if ltb 100 s.last_value then none else some (some s);
  decode = λ t. t;
  encode_point = λ s key tags. some none;
}

small_json-IsRead : IsRead small_json
small_json-IsRead s text e = elim (Bool-cases (ltb 100 s.last_value)) [
  | inl x ↦ let written : none ≡ some text = rw x at e in absurd cc
  | inr x ↦ let written : some (some s) ≡ some text = rw x at e in sym (some-injective _ _ written)
]

states-IsStore : IsStore states
states-IsStore = record {
  get-set = λ k v d.
      let found : lookup k (insert k v d) ≡ some v =
        lookup-insert k k v d ∙ rw ((bytes_equal.sound k k).1 refl) refl in
      ap found_of found;
  get-push = λ q k v d apart. ap found_of (lookup-insert q k v d ∙ rw apart refl);
}

abbrev load : Subject
load = record { op = average; key = codes "load"; id = codes "1"; tags = [] }

abbrev same_tags : List Tag → List Tag
same_tags tags = tags

stats_all-feeds_example :
    Has naturals small_json states
      (λ k c. c)
      same_tags
      (λ tags. [])
      (λ s. s)
      states-IsStore
      small_json-IsRead
      load
      (stats_all naturals small_json states
        (λ k c. c)
        same_tags
        (λ tags. [])
        (λ s. s)
        load
        ((310, 4) ∷ (620, 1000) ∷ (930, 7) ∷ [])
        (record { cache = tt; database = [] }))
      (remembered naturals small_json
        (record (new_state naturals average (300 ∷ 3600 ∷ [])) {
          tags = record { key = codes "id"; value = codes "1" } ∷ [];
        })
        none
        ((310, 4) ∷ (620, 1000) ∷ (930, 7) ∷ []))
unfolding tags_with_id
stats_all-feeds_example =
    stats_all-feeds naturals small_json states (λ k c. c) same_tags (λ tags. []) (λ s. s)
      states-IsStore small_json-IsRead load ((310, 4) ∷ (620, 1000) ∷ (930, 7) ∷ [])
      (record { cache = tt; database = [] }) refl

remembered-lost :
    remembered naturals small_json
      (new_state naturals average (300 ∷ []))
      none
      ((310, 4) ∷ (620, 1000) ∷ (930, 7) ∷ [])
    ≡ some (feeds naturals (new_state naturals average (300 ∷ [])) ((310, 4) ∷ (930, 7) ∷ []))
unfolding remembered feed_on
remembered-lost = refl
