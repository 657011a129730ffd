-- ===== src/Aggregator/Keeper/Kept.antt =====
-- The state that Stats of apps/plugins/aggregator/plugin/manager.go keeps in the database.
use debug_bootstrap.Prelude.{
  ℕ, nat_beq, ◌≡◌, refl, sym, ◌∙◌, subst, false, Option, none, some, Option-cases, List, [], ◌∷◌,
  Bytes, bytes_equal, ◌==◌, Bool-cases, inl, inr,
}
use debug_bootstrap.Mgr.Stats.{Tag}
use debug_bootstrap.Aggregator.{Floats, Sample, Samples, State, new_state, feed_on}
use debug_bootstrap.Aggregator.Keeper.Tags.{feed_on-tags, same-with_tags, with_tags-record}
use debug_bootstrap.Aggregator.Keeper.{
  Found, not_there, there_is, KeyStore, Json, Keeper, Subject, periods, tags_with_id, load_state,
  with_tags, save_state, feed_state, internal_key, stats, stats_all, statistics_queue, state_key,
  push_sample, push_samples, tag_map,
}

-- What is set under a key is found under it, and RPush does nothing to other keys than its own.
pub record IsStore {T D : Type 0} (store : KeyStore T D) : Type 0 where
  pub get-set : (k : Bytes) (v : T) (d : D) → store.get_key k (store.set_key k v d) ≡ there_is v
  pub get-push :
      (q k : Bytes) (v : T) (d : D)
      → (q == k) ≡ false
      → store.get_key k (store.rpush q v d) ≡ store.get_key k d

-- The JSON of a state, if it has one, is read as this state.
abbrev pub IsRead : {T F : Type 0} → Json T F → Type 0
IsRead {T} {F} json =
    (s : State F) (text : T) → json.encode s ≡ some text → json.decode text ≡ some s

-- A state that was fed stands in the place of the one before it, if it has a JSON.
abbrev pub written_or : {T F : Type 0} → Json T F → Option (State F) → State F → Option (State F)
written_or json old s = elim (json.encode s) [ none ↦ old | some text ↦ some s ]

-- The state that is remembered after readings: each is fed to the one before, or to the fresh one
-- where there is none.
abbrev pub state_or : {F : Type 0} → State F → Option (State F) → State F
state_or fresh none = fresh
state_or fresh (some s) = s

unfoldable pub remembered :
    {T F : Type 0}
    → Floats F
    → Json T F
    → State F
    → Option (State F)
    → List (ℕ × F)
    → Option (State F)
remembered fl json fresh old [] = old
remembered fl json fresh old ((now, v) ∷ readings) =
    remembered fl json fresh (written_or json old (feed_on fl now v (state_or fresh old)).0)
      readings

-- A state that is there has the tags.
abbrev HasTags : {F : Type 0} → List Tag → Option (State F) → Type 0
HasTags tags none = Unit {0}
HasTags tags (some s) = s.tags ≡ tags

written_or-HasTags :
    {T F : Type 0} (json : Json T F) (tags : List Tag) (old : Option (State F)) (s : State F)
    → s.tags ≡ tags
    → HasTags tags old
    → HasTags tags (written_or json old s)
written_or-HasTags json tags old s e h = elim (Option-cases (json.encode s)) [
  | inl x ↦ rw (written_or, x) h
  | inr (text, x) ↦ rw (written_or, x) e
]

module _ {F T C D : Type 0} (fl : Floats F) (json : Json T F) (store : KeyStore T D)
    (touch : Bytes → C → C) (sort : List Tag → List Tag) (digest : List Tag → Bytes)
    (walk : Samples F → Samples F) (kept : IsStore store) (read : IsRead json) where
  -- A value is the JSON of a state; or there is none.
  abbrev pub Means : Option (State F) → Found T → Type 0
  Means none found = found ≡ not_there
  Means (some s) found = (text : T) × (found ≡ there_is text) × (json.decode text ≡ some s)

  -- The database has the state under the key of the subject; or it has none there.
  abbrev pub Has : Subject → Keeper C D → Option (State F) → Type 0
  Has subject k old =
      Means old
        (store.get_key (internal_key fl json store touch sort digest walk subject) k.database)

  -- The key of a state is not a queue of points.
  queue_apart :
      (period : ℕ) (subject : Subject)
      → (statistics_queue period == internal_key fl json store touch sort digest walk subject)
        ≡ false
  unfolding statistics_queue internal_key state_key
  queue_apart period subject = refl

  get-push_sample :
      (key : Bytes) (tags : List Tag) (period : ℕ) (sample : Sample F) (subject : Subject) (d : D)
      → store.get_key
          (internal_key fl json store touch sort digest walk subject)
          (push_sample fl json store touch sort digest walk key tags period sample d)
        ≡ store.get_key (internal_key fl json store touch sort digest walk subject) d
  unfolding push_sample
  get-push_sample key tags period sample subject d = elim (Bool-cases (nat_beq sample.start 0)) [
    | inl e ↦ rw (push_sample, e) refl
    | inr e ↦ elim (Option-cases (json.encode_point sample key (tag_map tags []))) [
      | inl x ↦ rw (push_sample, e, x) refl
      | inr (text, x) ↦
          rw (push_sample, e, x)
            (kept.get-push (statistics_queue period)
              (internal_key fl json store touch sort digest walk subject) text d
              (queue_apart period subject))
    ]
  ]

  get-push_samples :
      (key : Bytes) (tags : List Tag) (updates : Samples F) (subject : Subject) (d : D)
      → store.get_key
          (internal_key fl json store touch sort digest walk subject)
          (push_samples fl json store touch sort digest walk key tags updates d)
        ≡ store.get_key (internal_key fl json store touch sort digest walk subject) d
  unfolding push_samples
  get-push_samples key tags [] subject d = refl
  get-push_samples key tags ((period, sample) ∷ updates) subject d =
      get-push_samples key tags updates subject
        (push_sample fl json store touch sort digest walk key tags period sample d)
      ∙ get-push_sample key tags period sample subject d

  save_state-Means :
      (internal : Bytes) (s : State F) (old : Option (State F)) (d : D)
      → Means old (store.get_key internal d)
      → Means
          (written_or json old s)
          (store.get_key internal (save_state fl json store touch sort digest walk internal s d))
  unfolding save_state
  save_state-Means internal s old d means = elim (Option-cases (json.encode s)) [
    | inl x ↦ rw (save_state, written_or, x) means
    | inr (text, x) ↦
        rw (save_state, written_or, x) (text, kept.get-set internal text d, read s text x)
  ]

  -- One reading, when the state that is fed is the one of the database, or the fresh one
  stats-Has :
      (subject : Subject) (now : ℕ) (v : F) (k : Keeper C D) (s fed : State F)
      (old : Option (State F))
      → load_state fl json store touch sort digest walk subject.op
          (store.get_key (internal_key fl json store touch sort digest walk subject) k.database)
        ≡ some s
      → with_tags (sort (tags_with_id subject.id subject.tags)) s ≡ fed
      → Has subject k old
      → Has subject
          (stats fl json store touch sort digest walk subject now v k)
          (written_or json old (feed_on fl now v fed).0)
  unfolding stats feed_state
  stats-Has subject now v k s fed old loaded same has =
      let (next, updates) = feed_on fl now v fed in
      let internal = internal_key fl json store touch sort digest walk subject in
      let pushed =
        push_samples fl json store touch sort digest walk subject.key next.tags (walk updates)
          k.database in
      let still : Means old (store.get_key internal pushed) =
        subst (Means old)
          (sym (get-push_samples subject.key next.tags (walk updates) subject k.database)) has in
      rw (stats, loaded, same) (save_state-Means internal next old pushed still)

  -- The state of a subject before its first reading
  abbrev pub fresh_state : Subject → State F
  fresh_state subject = record (new_state fl subject.op (300 ∷ 3600 ∷ [])) {
    tags = sort (tags_with_id subject.id subject.tags);
  }

  stats-remembered :
      (subject : Subject) (now : ℕ) (v : F) (k : Keeper C D) (old : Option (State F))
      → HasTags (sort (tags_with_id subject.id subject.tags)) old
      → Has subject k old
      → Has subject
          (stats fl json store touch sort digest walk subject now v k)
          (written_or json old (feed_on fl now v (state_or (fresh_state subject) old)).0)
        × HasTags
            (sort (tags_with_id subject.id subject.tags))
            (written_or json old (feed_on fl now v (state_or (fresh_state subject) old)).0)
  unfolding load_state new_state
  stats-remembered subject now v k none tagged has =
      let tags = sort (tags_with_id subject.id subject.tags) in
      let fresh = new_state fl subject.op periods in
      (
        stats-Has subject now v k fresh (fresh_state subject) none (rw has refl)
            (with_tags-record tags fresh refl) has,
        written_or-HasTags json tags none (feed_on fl now v (fresh_state subject)).0
            (feed_on-tags fl now v (fresh_state subject)) tagged,
      )
  stats-remembered subject now v k (some s) tagged has =
      let (text, found, back) = has in
      let tags = sort (tags_with_id subject.id subject.tags) in
      (
        stats-Has subject now v k s s (some s) (rw found back) (same-with_tags tags s tagged) has,
        written_or-HasTags json tags (some s) (feed_on fl now v s).0
            (feed_on-tags fl now v s ∙ tagged) tagged,
      )

  stats_all-Has :
      (subject : Subject) (readings : List (ℕ × F)) (k : Keeper C D) (old : Option (State F))
      → HasTags (sort (tags_with_id subject.id subject.tags)) old
      → Has subject k old
      → Has subject
          (stats_all fl json store touch sort digest walk subject readings k)
          (remembered fl json (fresh_state subject) old readings)
  unfolding stats_all remembered
  stats_all-Has subject [] k old tagged has = has
  stats_all-Has subject ((now, v) ∷ readings) k old tagged has =
      let (next, tagged') = stats-remembered subject now v k old tagged has in
      stats_all-Has subject readings (stats fl json store touch sort digest walk subject now v k)
        (written_or json old (feed_on fl now v (state_or (fresh_state subject) old)).0) tagged' next

  pub stats_all-feeds :
      (subject : Subject) (readings : List (ℕ × F)) (k : Keeper C D)
      → store.get_key (internal_key fl json store touch sort digest walk subject) k.database
        ≡ not_there
      → Has subject
          (stats_all fl json store touch sort digest walk subject readings k)
          (remembered fl json (fresh_state subject) none readings)
  stats_all-feeds subject readings k nobody = stats_all-Has subject readings k none tt nobody
