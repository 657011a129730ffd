-- ===== src/Logger.antt =====
-- apps/plugins/logger/plugin: records of what jobs say, kept in lists of a database. The database
-- is the interface of apps/plugins/protocol, and the JSON of a record is a parameter. A record that
-- is sent on the channel of a logger is pushed by its goroutine, one after the other.
pub mod Lists
pub mod Streams
pub mod Effect
pub mod Subscribers
use Prim.Native.Nat.{bit_or}
use debug_bootstrap.Prelude.{
  ℕ, zero, suc, Bool, true, false, not, ◌&&◌, ◌||◌, Option, none, some, List, [], ◌∷◌, ◌++◌, Bytes,
  codes, length, ltb, nat_beq, nat_equal, bytes_equal, contains, if◌then◌else◌,
}
use debug_bootstrap.Prelude.Dict.{Dict, lookup, insert, remove}
use debug_bootstrap.Prelude.Int.{ℤ, pos, negsuc}
use debug_bootstrap.Stream.Meta.{
  Message, level, is, assert, stream_flag, exit_success_flag, exit_error_flag,
}
use debug_bootstrap.Stream.Buffer.{Buffer, append, new_buffer}

-- type LogRecord struct
pub record LogRecord : Type 0 where
  pub core : ℕ
  pub command : Bytes
  pub message : Message

unfoldable pub is_loggable : List ℕ → Message → Bool
is_loggable defaults msg = if ltb 0 (length defaults) then assert msg.meta defaults else true

-- type Database interface of apps/plugins/protocol, as far as the loggers use it; `none` is an error.
-- What the time that lexpire sets does to a list is in Logger/Streams.
pub record Database (D : Type 0) : Type 0 where
  pub rpush : Bytes → Bytes → D → Option D
  pub ltrim : Bytes → ℤ → ℤ → D → Option D
  pub lexpire : Bytes → ℕ → D → D

abbrev pub max_stream_redis_queue_size : ℕ
max_stream_redis_queue_size = 1000

abbrev pub stream_redis_queue_ttl : ℕ
stream_redis_queue_ttl = 60

abbrev pub max_redis_queue_size : ℕ
max_redis_queue_size = 1000

-- -1 * size
unfoldable pub negative : ℕ → ℤ
negative zero = pos 0
negative (suc n) = negsuc n

-- type redisLogger struct: a set of levels is the list of those that were given.
pub record TrunkLogger : Type 0 where
  pub defaults : List ℕ
  pub size : ℕ
  pub buffer : Buffer LogRecord
  pub queues : Dict Bytes (List ℕ)

unfoldable pub size_or : ℕ → ℕ → ℕ
size_or default size = if nat_beq size 0 then default else size

unfoldable pub new_trunk_logger : List ℕ → ℕ → TrunkLogger
unfolding size_or
new_trunk_logger defaults size = record {
  defaults = defaults;
  size = size_or max_redis_queue_size size;
  buffer = new_buffer max_stream_redis_queue_size;
  queues = [];
}

-- Only messages of the levels, and those that end a stream, are let through; all of them, if there
-- are no levels.
unfoldable pub lets_through : List ℕ → Message → Bool
lets_through lvls msg =
    if ltb 0 (length lvls)
    then contains lvls (level msg.meta) || is msg.meta (bit_or exit_success_flag exit_error_flag)
    else true

unfoldable pub stream_queue : Bytes → Bytes
stream_queue command = codes "stream:" ++ command

-- delete(l.queues, queue) of unSubscribe
unfoldable pub unsubscribe : Bytes → TrunkLogger → TrunkLogger
unsubscribe queue l = record l { queues = remove queue l.queues }

module _ {D : Type 0} (db : Database D) where
  -- RPush, and LTrim to the newest records. The second part says whether both went well.
  unfoldable pub push_trimmed : ℕ → Bytes → Bytes → D → D × Bool
  unfolding negative
  push_trimmed size queue bytes d = elim (db.rpush queue bytes d) [
    | none ↦ (d, false)
    | some pushed ↦ elim (db.ltrim queue (negative size) (negsuc 0) pushed) [
      | none ↦ (pushed, false)
      | some trimmed ↦ (trimmed, true)
    ]
  ]

  unfoldable pub trimmed : ℕ → Bytes → D × Bool → D × Bool
  unfolding negative
  trimmed size queue (d, false) = (d, false)
  trimmed size queue (d, true) = elim (db.ltrim queue (negative size) (negsuc 0) d) [
    | none ↦ (d, false)
    | some d' ↦ (d', true)
  ]

  -- The loop over the queues; an error leaves it.
  unfoldable pub push_each : ℕ → Message → Bytes → Dict Bytes (List ℕ) → D → D × Bool
  unfolding lets_through push_trimmed
  push_each size msg bytes [] d = (d, true)
  push_each size msg bytes ((queue, lvls) ∷ queues) d = elim (lets_through lvls msg) [
    | false ↦ push_each size msg bytes queues d
    | true ↦
        let (pushed, ok) = push_trimmed size queue bytes d in
        elim ok [ true ↦ push_each size msg bytes queues pushed | false ↦ (pushed, false) ]
  ]

  -- One turn of streamLogger.push; its errors are dropped.
  unfoldable pub stream_bytes : ℕ → Bytes → Option Bytes → D → D
  unfolding push_trimmed
  stream_bytes size queue none d = d
  stream_bytes size queue (some bytes) d =
      let (pushed, ok) = push_trimmed size queue bytes d in
      if ok then db.lexpire queue stream_redis_queue_ttl pushed else pushed

module _ {D : Type 0} (db : Database D) (marshal : LogRecord → Option Bytes) where
  -- streamLogger.LogRecord for each record, and the pusher behind it
  unfoldable pub stream_log : ℕ → List LogRecord → D → D
  unfolding stream_bytes stream_queue
  stream_log size [] d = d
  stream_log size (r ∷ rs) d =
      let pushed = stream_bytes db size (stream_queue r.command) (marshal r) d in
      stream_log size rs (if is r.message.meta stream_flag then pushed else d)

  -- The loop over the backlog; an error leaves it.
  unfoldable pub flush_backlog : Bytes → List ℕ → List LogRecord → D → D × Bool
  unfolding lets_through
  flush_backlog queue lvls [] d = (d, true)
  flush_backlog queue lvls (r ∷ rs) d = elim (lets_through lvls r.message) [
    | false ↦ flush_backlog queue lvls rs d
    | true ↦ elim (marshal r) [
      | none ↦ flush_backlog queue lvls rs d
      | some bytes ↦ elim (db.rpush queue bytes d) [
        | none ↦ (d, false)
        | some pushed ↦ flush_backlog queue lvls rs pushed
      ]
    ]
  ]

  -- redisLogger.Subscribe: the logger, the database, and whether there was no error.
  unfoldable pub subscribe : Bytes → List ℕ → TrunkLogger → D → TrunkLogger × D × Bool
  unfolding flush_backlog trimmed
  subscribe queue lvls l d = elim (lookup queue l.queues) [
    | some old ↦ (l, d, true)
    | none ↦
        let (d', ok) = trimmed db l.size queue (flush_backlog queue lvls l.buffer.list d) in
        (record l { queues = insert queue lvls l.queues }, d', ok)
  ]

  unfoldable pub push_queues : LogRecord → TrunkLogger → D → TrunkLogger × D × Bool
  unfolding push_each append
  push_queues r l d =
      let kept = record l { buffer = append l.buffer r } in
      elim (nat_beq (length l.queues) 0) [
        | true ↦ (kept, d, true)
        | false ↦ elim (marshal r) [
          | none ↦ (kept, d, false)
          | some bytes ↦
              let (d', ok) = push_each db l.size r.message bytes l.queues d in (kept, d', ok)
        ]
      ]

  -- redisLogger.LogRecord for each record, and the pusher behind it, which logs errors only
  unfoldable pub trunk_log : List LogRecord → TrunkLogger → D → TrunkLogger × D
  unfolding is_loggable push_queues
  trunk_log [] l d = (l, d)
  trunk_log (r ∷ rs) l d = elim (is_loggable l.defaults r.message) [
    | false ↦ trunk_log rs l d
    | true ↦ let (l', d', ok) = push_queues r l d in trunk_log rs l' d'
  ]
