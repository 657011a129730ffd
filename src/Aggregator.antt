-- ===== src/Aggregator.antt =====
-- apps/plugins/aggregator/plugin/stats.go: statistics over periods of time. The numbers and their
-- operations are an interface. Times are seconds since 1970, and a period has at least one second:
-- the manager has 300 and 3600.
pub mod Group
pub mod History
pub mod Calls
pub mod Keeper
use debug_bootstrap.Prelude.{
  ℕ, zero, suc, leb, ◌+◌, ◌-◌, ◌*◌, ◌/◌, ◌%◌, ◌^◌, Bool, true, false, not, ◌&&◌, Option, none, some,
  List, [], ◌∷◌, ◌++◌, Bytes, length, drop, ltb, nat_beq, nat_equal, ◌==◌, bytes_equal,
  if◌then◌else◌,
}
use debug_bootstrap.Prelude.Dict.{Dict, lookup, insert}
use debug_bootstrap.Prelude.Int.{ℤ, pos, negsuc}
use debug_bootstrap.Mgr.Stats.{Tag}

-- float64, as far as the samples use it
pub record Floats (F : Type 0) : Type 0 where
  pub zero : F
  pub add : F → F → F
  pub sub : F → F → F
  pub div : F → F → F
  pub from_nat : ℕ → F
  pub greater : F → F → Bool
  pub is_nan : F → Bool

abbrev pub average : Bytes
average = b'A' ∷ []

abbrev pub differential : Bytes
differential = b'D' ∷ []

abbrev pub history_length : ℕ
history_length = 5

-- type Sample struct; `count` is a word of 64 bits.
pub record Sample (F : Type 0) : Type 0 where
  pub avg : F
  pub total : F
  pub max : F
  pub count : ℕ
  pub start : ℕ

-- type Samples and type History
abbrev pub Samples : Type 0 → Type 0
Samples F = Dict ℕ (Sample F)

abbrev pub History : Type 0 → Type 0
History F = Dict ℕ (List (Sample F))

-- type State struct
pub record State (F : Type 0) : Type 0 where
  pub operation : Bytes
  pub last_value : F
  pub last_time : ℤ
  pub tags : List Tag
  pub current : Samples F
  pub history : History F

abbrev pub entries : {F : Type 0} → Option (List (Sample F)) → List (Sample F)
entries none = []
entries (some his) = his

unfoldable pub newest : {F : Type 0} → List (Sample F) → List (Sample F)
newest his = if ltb history_length (length his) then drop (length his - history_length) his else his

-- State.log: the newest samples of the period are kept.
unfoldable pub log : {F : Type 0} → ℕ → Sample F → History F → History F
unfolding newest
log period sample history =
    let his = entries (lookup period history) ++ sample ∷ [] in
    if nat_beq sample.start 0 then history else insert period (newest his) history

unfoldable pub log_update : {F : Type 0} → ℕ → Option (Sample F) → History F → History F
unfolding log
log_update period none history = history
log_update period (some sample) history = log period sample history

unfoldable pub add_update : {F : Type 0} → ℕ → Option (Sample F) → Samples F → Samples F
add_update d none updates = updates
add_update d (some sample) updates = (d, sample) ∷ updates

module _ {F : Type 0} (fl : Floats F) where
  -- &Sample{}
  unfoldable pub new_sample : Sample F
  new_sample = record { avg = fl.zero; total = fl.zero; max = fl.zero; count = 0; start = 0 }

  -- Sample.Feed: the sample afterwards, and the one that a new period closes. The duration is at
  -- least one second; the program panics with none, and no caller gives none.
  unfoldable pub feed : Sample F → F → ℕ → ℕ → Sample F × Option (Sample F)
  feed m value now duration =
      let period = now / duration * duration in
      let total = fl.add m.total value in
      let count = (m.count + 1) % 2 ^ 64 in
      if not (nat_beq period 0) && ltb m.start period
      then (record { avg = value; total = value; max = value; count = 1; start = period }, some m)
      else (
        record {
          avg = fl.div total (fl.from_nat count);
          total = total;
          max = if fl.greater value m.max then value else m.max;
          count = count;
          start = if nat_beq m.start 0 then period else m.start;
        },
        none,
      )

  unfoldable pub new_samples : List ℕ → Samples F → Samples F
  unfolding new_sample
  new_samples [] current = current
  new_samples (d ∷ ds) current = new_samples ds (insert d new_sample current)

  unfoldable pub new_state : Bytes → List ℕ → State F
  unfolding new_samples
  new_state op durations = record {
    operation = op;
    last_value = fl.zero;
    last_time = negsuc 0;
    tags = [];
    current = new_samples durations [];
    history = [];
  }

  -- The loop over the samples: Feed for each, and `log` for those that are closed, with those.
  unfoldable pub feed_each : F → ℕ → Samples F → History F → Samples F × Samples F × History F
  unfolding feed log_update add_update
  feed_each value now [] history = ([], [], history)
  feed_each value now ((d, sample) ∷ current) history =
      let (sample', update) = feed sample value now d in
      let (current', updates, history') =
        feed_each value now current (log_update d update history) in
      ((d, sample') ∷ current', add_update d update updates, history')

  -- State.init: the samples that the first value closes are not logged.
  unfoldable pub init : ℕ → F → State F → State F
  unfolding feed_each
  init now value s =
      let (current, updates, history) = feed_each value now s.current s.history in
      if s.operation == average then record s { current = current } else s

  -- The value that is fed, `elapsed` seconds after the one before.
  unfoldable pub rate : State F → ℕ → F → F
  rate s elapsed value =
      if s.operation == differential
      then fl.div (fl.sub value s.last_value) (fl.from_nat elapsed)
      else value

  unfoldable pub feed_value : ℕ → F → State F → State F × Samples F
  unfolding feed_each
  feed_value now value s =
      let (current, updates, history) = feed_each value now s.current s.history in
      if fl.is_nan value
      then (s, [])
      else (record s { current = current; history = history }, updates)

  -- What FeedOn does at the last time that is kept; a nil map of updates has no entry.
  unfoldable pub feed_since : ℤ → ℕ → F → State F → State F × Samples F
  unfolding init rate feed_value
  feed_since (negsuc zero) now value s = (init now value s, [])
  feed_since (negsuc (suc n)) now value s = feed_value now (rate s (now + n + 2) value) s
  feed_since (pos last) now value s =
      let later = feed_value now (rate s (now - last) value) s in
      if leb now last then (s, []) else later

  -- State.FeedOn, with the deferred assignments
  unfoldable pub feed_on : ℕ → F → State F → State F × Samples F
  unfolding feed_since
  feed_on now value s =
      let (s', updates) = feed_since s.last_time now value s in
      (record s' { last_value = value; last_time = pos now }, updates)
