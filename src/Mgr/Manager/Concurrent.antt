-- ===== src/Mgr/Manager/Concurrent.antt =====
-- base/mgr/pm.go, the threads: callers of RunFactory, `loop`, and the jobs that end in cleanUp.
-- They share the lock `jobsM` of the table, the lock of the queue, and the channel `q.ch`, which
-- has no buffer: a send waits, with its locks held, until `loop` receives. A thread takes one step
-- at a time. A call with an id that is in the table returns at once and changes nothing, and calls
-- that only read the table take no part here.
pub mod Stuck
use debug_bootstrap.Prelude.{
  ℕ, ◌<◌, ◌≡◌, Bool, true, false, Option, none, some, List, [], ◌∷◌, ◌++◌, Bytes, bytes_equal,
  length,
}
use debug_bootstrap.Prelude.Dict.{Dict, lookup, insert, remove}
use debug_bootstrap.Pm.Command.{Command}
use debug_bootstrap.Mgr.Manager.{queue_of}
use debug_bootstrap.Mgr.Queue.{Queue, init, push, notify}

-- Who holds `jobsM`: nobody, a caller of RunFactory that has registered its job and calls Push, or
-- one whose Push stands at `q.ch <- job` and holds the queue's lock too.
pub data Caller : Type 0 where
  idle : Caller
  pushing sending : Command → Caller

abbrev pub in_push : Caller → Bool
in_push (sending job) = true
in_push _ = false

-- `loop` stands before its test of len(jobs), or at `<-ch`.
pub data LoopState : Type 0 where
  checking receiving : LoopState

-- `notifier` is a job that Notify sends, with the queue's lock held. A started job is running, has
-- ended and is to leave the table, or has left it and is to notify the queue.
pub record State : Type 0 where
  pub jobs : Dict Bytes Command
  pub queue : Queue Command
  pub caller : Caller
  pub notifier : Option Command
  pub loop : LoopState
  pub running : List Command
  pub ended : List Command
  pub notifying : List Command

unfoldable pub new : State
new = record {
  jobs = [];
  queue = init;
  caller = idle;
  notifier = none;
  loop = checking;
  running = [];
  ended = [];
  notifying = [];
}

-- The queue's lock is free.
pub record Free (s : State) : Type 0 where
  pub no_push : in_push s.caller ≡ false
  pub no_notify : s.notifier ≡ none

pub data Step (max_jobs : ℕ) (s : State) : State → Type 0 where
  register :
      (c : Command)
      → s.caller ≡ idle
      → lookup c.id s.jobs ≡ none
      → Step max_jobs s (record s { jobs = insert c.id c s.jobs; caller = pushing c })
  push_waits :
      (c : Command) (q : Queue Command)
      → s.caller ≡ pushing c
      → Free s
      → push queue_of s.queue c ≡ some (q, [])
      → Step max_jobs s (record s { queue = q; caller = idle })
  push_sends :
      (c j : Command) (q : Queue Command)
      → s.caller ≡ pushing c
      → Free s
      → push queue_of s.queue c ≡ some (q, j ∷ [])
      → Step max_jobs s (record s { queue = q; caller = sending j })
  push_fails :
      (c : Command)
      → s.caller ≡ pushing c
      → Free s
      → push queue_of s.queue c ≡ none
      → Step max_jobs s (record s { caller = idle })
  pass :
      s.loop ≡ checking → length s.jobs < max_jobs → Step max_jobs s (record s { loop = receiving })
  receive_pushed :
      (j : Command)
      → s.loop ≡ receiving
      → s.caller ≡ sending j
      → Step max_jobs s (record s { caller = idle; loop = checking; running = j ∷ s.running })
  receive_next :
      (j : Command)
      → s.loop ≡ receiving
      → s.notifier ≡ some j
      → Step max_jobs s (record s { notifier = none; loop = checking; running = j ∷ s.running })
  finish :
      (l r : List Command) (j : Command)
      → s.running ≡ l ++ j ∷ r
      → Step max_jobs s (record s { running = l ++ r; ended = j ∷ s.ended })
  unregister :
      (l r : List Command) (j : Command)
      → s.ended ≡ l ++ j ∷ r
      → s.caller ≡ idle
      → Step max_jobs s
          (record s { jobs = remove j.id s.jobs; ended = l ++ r; notifying = j ∷ s.notifying })
  notify_last :
      (l r : List Command) (j : Command) (q : Queue Command)
      → s.notifying ≡ l ++ j ∷ r
      → Free s
      → notify queue_of s.queue j ≡ (q, [])
      → Step max_jobs s (record s { queue = q; notifying = l ++ r })
  notify_sends :
      (l r : List Command) (j next : Command) (q : Queue Command)
      → s.notifying ≡ l ++ j ∷ r
      → Free s
      → notify queue_of s.queue j ≡ (q, next ∷ [])
      → Step max_jobs s (record s { queue = q; notifying = l ++ r; notifier = some next })

pub data Reach (max_jobs : ℕ) (s : State) : State → Type 0 where
  here : Reach max_jobs s s
  then : {t u : State} → Reach max_jobs s t → Step max_jobs t u → Reach max_jobs s u
