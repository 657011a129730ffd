-- ===== src/Logger/Subscribers.antt =====
-- apps/plugins/logger/plugin: what the subscribers of the log see.
use debug_bootstrap.Prelude.{
  ℕ, ◌≤◌, ◌<◌, true, Option, none, some, List, [], ◌∷◌, ◌++◌, Bytes, ◌≡◌, refl, sym, ap, ◌∙◌,
  length, last_n, last_n-append, append_assoc, append-nil, nat_beq, bytes_equal, beq_refl,
  if◌then◌else◌, Bool-cases, Option-cases, inl, inr,
}
use debug_bootstrap.Prelude.Dict.{lookup, insert, lookup-insert, IsApart, insert-IsApart}
use debug_bootstrap.Stream.Buffer.{append}
use debug_bootstrap.Logger.{
  LogRecord, Database, TrunkLogger, lets_through, is_loggable, flush_backlog, trimmed, subscribe,
  push_queues, trunk_log,
}
use debug_bootstrap.Logger.Lists.{
  IsStore, trim-negative, last_n_short, length-last_n, add_some, Adds, Adds-none,
}
use debug_bootstrap.Logger.Effect.{push_each-effect, effect-Adds, effect, lookup-some-length}

module _ (marshal : LogRecord → Option Bytes) where
  -- The records that a queue with levels gets
  unfoldable pub trunk_lines : List ℕ → List LogRecord → List Bytes
  trunk_lines lvls [] = []
  trunk_lines lvls (r ∷ rs) =
      let rest = trunk_lines lvls rs in
      if lets_through lvls r.message then add_some (marshal r) rest else rest

-- The records that the logger takes at all
unfoldable pub loggable : List ℕ → List LogRecord → List LogRecord
loggable defaults [] = []
loggable defaults (r ∷ rs) =
    let rest = loggable defaults rs in if is_loggable defaults r.message then r ∷ rest else rest

module _ {D : Type 0} (db : Database D) (marshal : LogRecord → Option Bytes)
    (list : Bytes → D → List Bytes) (store : IsStore db list) where
  push_queues-kept :
      (r : LogRecord) (l : TrunkLogger) (d : D)
      → (push_queues db marshal r l d).0 ≡ record l { buffer = append l.buffer r }
  unfolding push_queues
  push_queues-kept r l d = elim (Bool-cases (nat_beq (length l.queues) 0)) [
    | inl e ↦ rw (push_queues, e) refl
    | inr e ↦ elim (Option-cases (marshal r)) [
      | inl m ↦ rw (push_queues, e, m) refl
      | inr (b, m) ↦ rw (push_queues, e, m) refl
    ]
  ]

  push_queues-Adds :
      (r : LogRecord) (l : TrunkLogger) (d : D) (j : Bytes) (lvls : List ℕ)
      → IsApart l.queues
      → lookup j l.queues ≡ some lvls
      → 0 < l.size
      → length (list j d) ≤ l.size
      → Adds list l.size j
          (lets_through lvls r.message)
          (marshal r)
          d
          (push_queues db marshal r l d).1
  unfolding push_queues
  push_queues-Adds r l d j lvls a h p few =
      let some_queues = lookup-some-length j l.queues lvls h in
      elim (Option-cases (marshal r)) [
        | inl m ↦
            rw (push_queues, some_queues, m)
              (Adds-none list l.size j (lets_through lvls r.message) d few)
        | inr (b, m) ↦
            let (d', pushes, after) =
              push_each-effect db list store l.size r.message b l.queues d p a in
            rw (push_queues, some_queues, m, pushes)
              (effect-Adds db list store l.size r.message b j lvls d d' few
                (after j ∙ ap (λ o. effect l.size r.message b o (list j d)) h))
      ]

  -- A queue that is subscribed, over the records that come
  trunk_log-newest :
      (rs : List LogRecord) (l : TrunkLogger) (d : D) (j : Bytes) (lvls : List ℕ)
      → IsApart l.queues
      → lookup j l.queues ≡ some lvls
      → 0 < l.size
      → length (list j d) ≤ l.size
      → list j (trunk_log db marshal rs l d).1
        ≡ last_n l.size (list j d ++ trunk_lines marshal lvls (loggable l.defaults rs))
  unfolding trunk_log trunk_lines loggable Adds
  trunk_log-newest [] l d j lvls a h p few =
      rw (append-nil (list j d)) (sym (last_n_short l.size (list j d) few))
  trunk_log-newest (r ∷ rs) l d j lvls a h p few =
      elim (Bool-cases (is_loggable l.defaults r.message)) [
        | inr t ↦ rw (trunk_log, t) (trunk_log-newest rs l d j lvls a h p few)
        | inl t ↦
            let l' = record l { buffer = append l.buffer r } in
            let d' = (push_queues db marshal r l d).1 in
            let (short, same) = push_queues-Adds r l d j lvls a h p few in
            rw (trunk_log, t, push_queues-kept r l d)
              (trunk_log-newest rs l' d' j lvls a h p short
                ∙ same (trunk_lines marshal lvls (loggable l.defaults rs)))
      ]

  flush_backlog-list :
      (q : Bytes) (lvls : List ℕ) (rs : List LogRecord) (d : D)
      → (d' : D) × (flush_backlog db marshal q lvls rs d ≡ (d', true))
        × (list q d' ≡ list q d ++ trunk_lines marshal lvls rs)
  unfolding flush_backlog trunk_lines
  flush_backlog-list q lvls [] d = (d, refl, sym (append-nil (list q d)))
  flush_backlog-list q lvls (r ∷ rs) d = elim (Bool-cases (lets_through lvls r.message)) [
    | inr t ↦
        let (d', flushes, after) = flush_backlog-list q lvls rs d in
        (d', rw (flush_backlog, t) flushes, rw t after)
    | inl t ↦ elim (Option-cases (marshal r)) [
      | inl m ↦
          let (d', flushes, after) = flush_backlog-list q lvls rs d in
          (d', rw (flush_backlog, t, m) flushes, rw (t, m) after)
      | inr (b, m) ↦
          let (pushed, pushes, first) = store.push q b d in
          let (d', flushes, after) = flush_backlog-list q lvls rs pushed in
          let one : list q pushed ≡ list q d ++ b ∷ [] = rw (first q, beq_refl q) refl in
          (
            d',
            rw (flush_backlog, t, m, pushes) flushes,
            rw (t, m)
                (after
                  ∙ ap (λ xs. xs ++ trunk_lines marshal lvls rs) one
                  ∙ append_assoc (list q d) (b ∷ []) (trunk_lines marshal lvls rs)),
          )
    ]
  ]

  subscribe-list :
      (q : Bytes) (lvls : List ℕ) (l : TrunkLogger) (d : D)
      → lookup q l.queues ≡ none
      → 0 < l.size
      → (d' : D) × (subscribe db marshal q lvls l d
          ≡ (record l { queues = insert q lvls l.queues }, d', true))
        × (list q d' ≡ last_n l.size (list q d ++ trunk_lines marshal lvls l.buffer.list))
  unfolding subscribe trimmed
  subscribe-list q lvls l d h p =
      let (flushed, flushes, after) = flush_backlog-list q lvls l.buffer.list d in
      let (d', trims, kept) = trim-negative db list store q l.size flushed p in
      (
        d',
        rw (subscribe, h, flushes, trimmed, flushes, trims) refl,
        rw (kept q, beq_refl q) (ap (last_n l.size) after),
      )

  -- On a store whose calls succeed, a queue that is not subscribed and that the store has no entries
  -- for is subscribed without an error, and holds after any further records the newest entries, up
  -- to the logger's size, which is positive: the JSON of the records that its levels let through, of
  -- those in the logger's buffer first and then of the further ones that the logger takes.
  pub subscribe-newest :
      (q : Bytes) (lvls : List ℕ) (l : TrunkLogger) (d : D) (rs : List LogRecord)
      → IsApart l.queues
      → lookup q l.queues ≡ none
      → 0 < l.size
      → list q d ≡ []
      → ((subscribe db marshal q lvls l d).2 ≡ true)
        × (list q
              (trunk_log db marshal rs
                (subscribe db marshal q lvls l d).0
                (subscribe db marshal q lvls l d).1).1
            ≡ last_n l.size (
                trunk_lines marshal lvls l.buffer.list
                ++ trunk_lines marshal lvls (loggable l.defaults rs)))
  subscribe-newest q lvls l d rs a h p empty =
      let (d', subscribes, after) = subscribe-list q lvls l d h p in
      let l' = record l { queues = insert q lvls l.queues } in
      let backlog = trunk_lines marshal lvls l.buffer.list in
      let more = trunk_lines marshal lvls (loggable l.defaults rs) in
      let held : list q d' ≡ last_n l.size backlog = after ∙ rw empty refl in
      let found : lookup q (insert q lvls l.queues) ≡ some lvls =
        lookup-insert q q lvls l.queues ∙ rw (beq_refl q) refl in
      let few : length (list q d') ≤ l.size = rw held (length-last_n l.size backlog) in
      rw subscribes (
        refl,
        trunk_log-newest rs l' d' q lvls (insert-IsApart q lvls l.queues a) found p few
            ∙ ap (λ xs. last_n l.size (xs ++ more)) held
            ∙ last_n-append l.size backlog more,
      )
