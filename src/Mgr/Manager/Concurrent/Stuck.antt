-- ===== src/Mgr/Manager/Concurrent/Stuck.antt =====
-- The threads of base/mgr/pm.go when the table is full and one more job comes.
use debug_bootstrap.Prelude.{
  ℕ, zero, suc, ◌≤◌, ◌≡◌, refl, false, none, List, [], ◌∷◌, Bytes, bytes_equal, length, arith,
  length-append, bytes_eq_iff, ap, ◌∙◌,
}
use debug_bootstrap.Prelude.Dict.{Dict, lookup, insert, lookup-insert, length-insert_new}
use debug_bootstrap.Prelude.Int.{pos}
use debug_bootstrap.Mgr.Queue.{init, push}
use debug_bootstrap.Pm.Command.{Command}
use debug_bootstrap.Mgr.Manager.Concurrent.{
  State, idle, sending, checking, receiving, new, Step, register, push_waits, push_sends,
  push_fails, pass, receive_pushed, receive_next, finish, unregister, notify_last, notify_sends,
  Reach, here, then, LoopState,
}

-- A caller stands at the send of `j` with both locks held, and `loop` waits for the table to shrink.
pub record IsStuck (max_jobs : ℕ) (j : Command) (s : State) : Type 0 where
  pub full : max_jobs ≤ length s.jobs
  pub waits : s.loop ≡ checking
  pub sends : s.caller ≡ sending j

-- The table is as it was, and no further job was started.
abbrev pub Frozen : ℕ → Command → State → State → Type 0
Frozen max_jobs j s t =
    IsStuck max_jobs j t × (t.jobs ≡ s.jobs) × (length t.running ≤ length s.running)

-- The one step that is left is the end of a job that runs.
step-Frozen :
    {max_jobs : ℕ} {j : Command} {s t : State}
    → Step max_jobs s t
    → IsStuck max_jobs j s
    → Frozen max_jobs j s t
step-Frozen (register c i e) k = ground (arith, k.sends)
step-Frozen (push_waits c q p f e) k = ground (arith, k.sends)
step-Frozen (push_sends c j q p f e) k = ground (arith, k.sends)
step-Frozen (push_fails c p f e) k = ground (arith, k.sends)
step-Frozen (pass c l) k = ground (arith, k.full)
step-Frozen (receive_pushed j r c) k = ground (arith, k.waits)
step-Frozen (receive_next j r c) k = ground (arith, k.waits)
step-Frozen {s = s} (finish l r j e) k = (
  record { full = k.full; waits = k.waits; sends = k.sends },
  refl,
  omega (arith, ap length e, length-append l r, length-append l (j ∷ r)),
)
step-Frozen (unregister l r j e i) k = ground (arith, k.sends)
step-Frozen (notify_last l r j q e f n) k = ground (arith, k.sends, f.no_push)
step-Frozen (notify_sends l r j next q e f n) k = ground (arith, k.sends, f.no_push)

-- Once a caller of RunFactory stands at its send while the table is full and `loop` waits for it to
-- shrink, this never ends: in every state that the threads reach from there the same caller still
-- stands there, the table is unchanged, and no job has been started. The jobs that end cannot
-- leave the table, because the caller holds its lock.
pub Reach-Frozen :
    {max_jobs : ℕ} {j : Command} {s t : State}
    → Reach max_jobs s t
    → IsStuck max_jobs j s
    → Frozen max_jobs j s t
Reach-Frozen here k = (k, refl, omega arith)
Reach-Frozen (then r st) k =
    let (k', jobs, runs) = Reach-Frozen r k in
    let (k'', jobs', runs') = step-Frozen st k' in (k'', jobs' ∙ jobs, omega (arith, runs, runs'))

-- Commands with the ids "", "1", "11", … and no queue name.
ones : ℕ → Bytes
ones zero = []
ones (suc k) = b'1' ∷ ones k

abbrev numbered : ℕ → Command
numbered k = record {
  id = ones k;
  command = [];
  arguments = none;
  queue = [];
  stats_interval = pos 0;
  max_time = pos 0;
  max_restart = pos 0;
  recurring_period = pos 0;
  stream = false;
  log_levels = [];
  tags = [];
  core = 0;
  flags = record { protected = false; no_output = false; no_set_pgid = false };
}

table : ℕ → Dict Bytes Command
table zero = []
table (suc k) = insert (ones k) (numbered k) (table k)

started : ℕ → List Command
started zero = []
started (suc k) = numbered k ∷ started k

-- `k` jobs run, and every thread is at rest.
abbrev crowd : ℕ → State
crowd k = record {
  jobs = table k;
  queue = init;
  caller = idle;
  notifier = none;
  loop = checking;
  running = started k;
  ended = [];
  notifying = [];
}

ones-injective : (k m : ℕ) → ones k ≡ ones m → k ≡ m
unfolding ones
ones-injective zero zero e = refl
ones-injective zero (suc m) e = cc
ones-injective (suc k) zero e = cc
ones-injective (suc k) (suc m) e = ap suc (ones-injective k m (cc))

lookup-table : (k m : ℕ) → k ≤ m → lookup (ones m) (table k) ≡ none
unfolding table
lookup-table zero m h = refl
lookup-table (suc k) m h = ground (
  arith,
  lookup-insert (ones k) (ones m) (numbered k) (table k),
  bytes_eq_iff (ones k) (ones m),
  ones-injective k m,
  lookup-table k m,
)

length-table : (k : ℕ) → length (table k) ≡ k
unfolding table
length-table zero = refl
length-table (suc k) =
    length-insert_new (ones k) (numbered k) (table k) (lookup-table k k (omega arith))
    ∙ ap suc (length-table k)

-- One more job is registered and stands at its send.
abbrev crowd_sending : ℕ → State
crowd_sending k = record (crowd k) { jobs = table (suc k); caller = sending (numbered k) }

Reach-sending :
    (max_jobs k : ℕ) (s : State) (l : LoopState)
    → Reach max_jobs s (record (crowd k) { loop = l })
    → Reach max_jobs s (record (crowd_sending k) { loop = l })
unfolding push init table
Reach-sending max_jobs k s l r =
    then (then r (register (numbered k) refl (unfold ones in lookup-table k k (omega arith)))) (
      push_sends (numbered k) (numbered k) init refl (record { no_push = refl; no_notify = refl })
        refl)

Reach-crowd : (max_jobs k : ℕ) → k ≤ max_jobs → Reach max_jobs new (crowd k)
unfolding new started table
Reach-crowd max_jobs zero h = here
Reach-crowd max_jobs (suc k) h =
    then
      (Reach-sending max_jobs k new receiving
        (then (Reach-crowd max_jobs k (omega arith)) (pass refl (omega (arith, length-table k)))))
      (receive_pushed (numbered k) refl refl)

-- Whatever the limit on the number of jobs is, the threads can come to such a standstill from the
-- start.
pub Reach-IsStuck :
    (max_jobs : ℕ) → (s : State) × (j : Command) × Reach max_jobs new s × IsStuck max_jobs j s
Reach-IsStuck max_jobs = (
  crowd_sending max_jobs,
  numbered max_jobs,
  Reach-sending max_jobs max_jobs new checking (Reach-crowd max_jobs max_jobs (omega arith)),
  record { full = omega (arith, length-table (suc max_jobs)); waits = refl; sends = refl },
)
