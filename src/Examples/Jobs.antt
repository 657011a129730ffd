-- ===== src/Examples/Jobs.antt =====
-- Jobs of base/mgr: queues, runs, restarts, and the threads that share them.
use debug_bootstrap.Prelude.{
  ◌≡◌, refl, true, none, some, List, [], ◌∷◌, ◌++◌, Bytes, codes, take, arith, if◌then◌else◌, false,
}
use debug_bootstrap.Prelude.Int.{ℤ, pos}
use debug_bootstrap.Stream.Meta.{Message, is, code, new_meta_with_code, exit_success_flag, new_meta}
use debug_bootstrap.Pm.Command.{Command}
use debug_bootstrap.Pm.Result.{
  JobResult, success, error, level_stdout, level_stderr, level_critical,
}
use debug_bootstrap.Mgr.Manager.Registered.{run_factory-closed}
use debug_bootstrap.Mgr.Manager.{Manager, run_factory, job_of, closed_queue, duplicate_id, queue_of}
use debug_bootstrap.Mgr.Queue.{init, push}
use debug_bootstrap.Mgr.Queue.Trace.{Op, pushes, notifies, run, only, served, waiting, pushed}
use debug_bootstrap.Mgr.Queue.Serial.{run-serial}
use debug_bootstrap.Mgr.Manager.Concurrent.{State, Reach, here, new, sending, finish}
use debug_bootstrap.Mgr.Manager.Concurrent.Stuck.{IsStuck, Frozen, Reach-Frozen, Reach-IsStuck}
use debug_bootstrap.Mgr.Job.Run
use debug_bootstrap.Stream.Meta
use debug_bootstrap.Mgr.Job.Run.{sigkill, Event, new_backlog, said, timed_out, signalled}
use debug_bootstrap.Mgr.Job.Run.Output.{messages, texts_at, last_or, last_result}
use debug_bootstrap.Mgr.Job.Run.Outcome.{run_outcome}
use debug_bootstrap.Mgr.Job.Run.Ended.{state_after, tail_text, level_of, payload_of}
use debug_bootstrap.Mgr.Job.Restart.{Attempt, in_run, in_back_off, begins}
use debug_bootstrap.Mgr.Job.Signals.{Handle, attempt_of, terminate}
use debug_bootstrap.Mgr.Manager.Shutdown.{
  Running, sigterm, shutdown, terminate_all, terminate_entry, shutdown-stop,
}

abbrev sample : Bytes → ℤ → ℤ → Command
sample queue limit period = record {
  id = codes "1";
  command = codes "core.ping";
  arguments = none;
  queue = queue;
  stats_interval = pos 0;
  max_time = pos 0;
  max_restart = limit;
  recurring_period = period;
  stream = true;
  log_levels = [];
  tags = [];
  core = 0;
  flags = record { protected = false; no_output = false; no_set_pgid = false };
}

abbrev serial : Bytes
serial = codes "q"

abbrev ping : Command
ping = sample serial (pos 2) (pos 0)

abbrev calls : List (Op Command)
calls = pushes ping ∷ pushes ping ∷ notifies ping ∷ []

run-serial_example :
    (only queue_of serial (run queue_of (init, []) calls).1
      ≡ served queue_of serial [] calls ++ take 1 (waiting queue_of serial [] calls))
    × (served queue_of serial [] calls ++ waiting queue_of serial [] calls
        ≡ pushed queue_of serial calls)
run-serial_example = run-serial queue_of calls serial (λ e. cc)

-- One job runs, the limit is one, and a second job stands at its send.
abbrev stuck : State
stuck = record new {
  jobs = (codes "2", ping) ∷ (codes "1", ping) ∷ [];
  caller = sending ping;
  running = ping ∷ [];
}

abbrev stuck_later : State
stuck_later = record stuck { running = []; ended = ping ∷ [] }

Reach-Frozen_example : Frozen 1 ping stuck stuck_later
unfolding new
Reach-Frozen_example =
    Reach-Frozen {max_jobs = 1} {j = ping} {s = stuck} {t = stuck_later}
      (Reach.then here (finish [] [] ping refl))
      (record { full = omega arith; waits = refl; sends = refl })

Reach-IsStuck_example : (s : State) × (j : Command) × Reach 3 new s × IsStuck 3 j s
Reach-IsStuck_example = Reach-IsStuck 3

abbrev out : Message
out = record { message = codes "pong"; epoch = 1; meta = new_meta 1 [] }

abbrev bye : Message
bye = record { message = []; epoch = 2; meta = new_meta_with_code 0 0 (exit_success_flag ∷ []) }

abbrev events : List Event
events = said out ∷ signalled 15 ∷ timed_out ∷ []

abbrev all_said : List Message
all_said = messages events ++ bye ∷ []

run_outcome_example :
    (r : JobResult) × (Run.run ping true new_backlog none (events ++ said bye ∷ []) ≡ some r)
    × (r.state ≡ (if is bye.meta exit_success_flag then success else state_after true error events))
    × (r.code ≡ code bye.meta)
    × (r.streams ≡ tail_text level_stdout all_said ∷ tail_text level_stderr all_said ∷ [])
    × (r.critical ≡ last_or [] (texts_at level_critical all_said))
    × (r.level ≡ level_of (last_result none all_said))
    × (r.payload ≡ payload_of (last_result none all_said))
unfolding Run.is_exit Run.outgoing is Meta.set Meta.base new_meta new_meta_with_code Meta.add_flags
run_outcome_example =
    run_outcome ping true new_backlog events [] bye (refl, (refl, (refl, tt))) refl

abbrev bad : Attempt
bad = record { state = error; protected = false; unscheduled = false }

abbrev good : Attempt
good = record { state = success; protected = false; unscheduled = false }

abbrev hourly : Command
hourly = sample [] (pos 0) (pos 3600)

abbrev handle : Handle
handle = record { running = true; pending = []; unscheduled = false; protected = true }

-- One job in the table; nothing happens between the signals.
abbrev running : Running
running = record {
  jobs = (codes "1", record { command = hourly; handle = handle }) ∷ [];
  queue = record { queues = []; closed = false };
}

abbrev ended : Handle
ended = (terminate sigkill (terminate sigterm handle).0).0

shutdown-stop_example :
    (push queue_of (shutdown [] (λ r. r) running).queue ping ≡ none)
    × (begins in_run hourly 0 (attempt_of error ended ∷ []) ≡ some 0)
    × (begins in_back_off hourly 0 (attempt_of error ended ∷ []) ≡ some 1)
unfolding shutdown terminate_all terminate_entry
shutdown-stop_example =
    shutdown-stop [] (λ r. r) running (codes "1") (record { command = hourly; handle = ended }) 0
      error [] ping (λ r e. e) refl refl

-- A manager after Shutdown closed its queue.
abbrev closing : Manager
closing = record { jobs = []; queue = record { queues = []; closed = true } }

run_factory-closed_example :
    let (m', first) = run_factory (λ c. c) (codes "u") closing ping in
    (first ≡ closed_queue)
    × (job_of m' (codes "1") ≡ some ping)
    × (run_factory (λ c. c) (codes "v") m' ping ≡ (m', duplicate_id))
run_factory-closed_example = run_factory-closed (codes "u") (codes "v") closing ping refl refl refl
