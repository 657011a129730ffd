-- ===== src/Aggregator/Keeper.antt =====
-- Stats of apps/plugins/aggregator/plugin/manager.go: the statistics are kept in the database, as
-- JSON, under their key and tags. JSON and its texts, the digest of the tags, sort.Sort and the
-- order in which Go walks a map are arguments, the database and the cache of the keys interfaces.
pub mod Kept
mod Tags
use debug_bootstrap.Prelude.{
  ℕ, Bool, true, false, Option, none, some, List, [], ◌∷◌, ◌++◌, Bytes, codes, bytes_equal, nat_beq,
  if◌then◌else◌,
}
use debug_bootstrap.Prelude.Dict.{Dict, insert}
use debug_bootstrap.Mgr.Stats.{Tag}
use debug_bootstrap.Socat.Source.{decimal}
use debug_bootstrap.Aggregator.{Floats, Sample, Samples, State, new_state, feed_on}

-- What GetKey returns: an error, no value, or one
pub data Found (T : Type 0) : Type 0 where
  get_failed not_there : Found T
  there_is : T → Found T

-- The operations of the database, as protocol has them; an error of RPush is not looked at, and that
-- of SetKey only logged
pub record KeyStore (T D : Type 0) : Type 0 where
  pub get_key : Bytes → D → Found T
  pub set_key : Bytes → T → D → D
  pub rpush : Bytes → T → D → D

-- json.Marshal and LoadState for a state, json.Marshal for a point
pub record Json (T F : Type 0) : Type 0 where
  pub encode : State F → Option T
  pub decode : T → Option (State F)
  pub encode_point : Sample F → Bytes → Dict Bytes Bytes → Option T

-- The fields of the manager: the cache of the keys, and the database
pub record Keeper (C D : Type 0) : Type 0 where
  pub cache : C
  pub database : D

-- What a call of Stats is about
pub record Subject : Type 0 where
  pub op : Bytes
  pub key : Bytes
  pub id : Bytes
  pub tags : List Tag

abbrev pub periods : List ℕ
periods = 300 ∷ 3600 ∷ []

-- tags = append(tags, pm.Tag{IDTag, id})
unfoldable pub tags_with_id : Bytes → List Tag → List Tag
tags_with_id [] tags = tags
tags_with_id (c ∷ id) tags = tags ++ record { key = codes "id"; value = c ∷ id } ∷ []

-- The map of a point's tags
unfoldable pub tag_map : List Tag → Dict Bytes Bytes → Dict Bytes Bytes
tag_map [] m = m
tag_map (tag ∷ tags) m = tag_map tags (insert tag.key tag.value m)

-- fmt.Sprintf(StatisticsQueueKey, period)
unfoldable pub statistics_queue : ℕ → Bytes
statistics_queue period = codes "statistics:" ++ decimal period

unfoldable pub state_key : Bytes → Bytes → Bytes
state_key key hash = codes "state:" ++ key ++ codes ":" ++ hash

-- if len(tags) != 0 { state.Tags = tags }
unfoldable pub with_tags : {F : Type 0} → List Tag → State F → State F
with_tags [] s = s
with_tags (tag ∷ tags) s = record s { tags = tag ∷ tags }

module _ {F T C D : Type 0} (fl : Floats F) (json : Json T F) (store : KeyStore T D)
    (touch : Bytes → C → C) (sort : List Tag → List Tag) (digest : List Tag → Bytes)
    (walk : Samples F → Samples F) where
  -- One sample that Feed closed
  unfoldable pub push_sample : Bytes → List Tag → ℕ → Sample F → D → D
  unfolding statistics_queue tag_map
  push_sample key tags period sample d =
      if nat_beq sample.start 0 then d else elim (json.encode_point sample key (tag_map tags [])) [
        | none ↦ d
        | some data_of ↦ store.rpush (statistics_queue period) data_of d
      ]

  unfoldable pub push_samples : Bytes → List Tag → Samples F → D → D
  unfolding push_sample
  push_samples key tags [] d = d
  push_samples key tags ((period, sample) ∷ updates) d =
      push_samples key tags updates (push_sample key tags period sample d)

  -- The state that the database has, a new one, or an error
  unfoldable pub load_state : Bytes → Found T → Option (State F)
  load_state op get_failed = none
  load_state op not_there = some (new_state fl op periods)
  load_state op (there_is data_of) = json.decode data_of

  unfoldable pub save_state : Bytes → State F → D → D
  save_state internal s d = elim (json.encode s) [
    | none ↦ d
    | some data_of ↦ store.set_key internal data_of d
  ]

  -- Feed, its closed samples, and the state
  unfoldable pub feed_state : Bytes → Bytes → ℕ → F → State F → D → D
  unfolding push_samples save_state
  feed_state internal key now value s d =
      let (fed, updates) = feed_on fl now value s in
      save_state internal fed (push_samples key fed.tags (walk updates) d)

  -- The key of the state of a subject
  unfoldable pub internal_key : Subject → Bytes
  unfolding state_key tags_with_id
  internal_key subject =
      state_key subject.key (digest (sort (tags_with_id subject.id subject.tags)))

  -- func (r *Manager) Stats
  unfoldable pub stats : Subject → ℕ → F → Keeper C D → Keeper C D
  unfolding internal_key load_state feed_state with_tags tags_with_id
  stats subject now value k =
      let internal = internal_key subject in
      let tags = sort (tags_with_id subject.id subject.tags) in
      let touched = record k { cache = touch internal k.cache } in
      elim (load_state subject.op (store.get_key internal k.database)) [
        | none ↦ touched
        | some s ↦ record touched {
          database = feed_state internal subject.key now value (with_tags tags s) k.database;
        }
      ]

  -- Readings of one subject, each with its time
  unfoldable pub stats_all : Subject → List (ℕ × F) → Keeper C D → Keeper C D
  unfolding stats
  stats_all subject [] k = k
  stats_all subject ((now, value) ∷ readings) k =
      stats_all subject readings (stats subject now value k)
