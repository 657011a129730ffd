-- ===== src/Mgr/Job/Signals.antt =====
-- base/mgr/job.go: Signal, Unschedule and Terminate, called from other threads than the job's.
use debug_bootstrap.Prelude.{
  ℕ, ◌≡◌, Bool, true, false, List, [], ◌∷◌, ◌++◌, length, ltb, if◌then◌else◌, arith,
}
use debug_bootstrap.Pm.Command.{Command}
use debug_bootstrap.Pm.Result.{JobState}
use debug_bootstrap.Mgr.Job.Restart.{Attempt, stop, after_run}

-- `pending` is what the channel `signal` holds, five signals at most.
pub record Handle : Type 0 where
  pub running : Bool
  pub pending : List ℕ
  pub unscheduled : Bool
  pub protected : Bool

abbrev pub signal_buffer : ℕ
signal_buffer = 5

pub data SignalError : Type 0 where
  delivered not_running not_receiving : SignalError

unfoldable pub signal : ℕ → Handle → Handle × SignalError
signal sig h =
    if h.running
    then (if ltb (length h.pending) signal_buffer
        then (record h { pending = h.pending ++ sig ∷ [] }, delivered)
        else (h, not_receiving))
    else (h, not_running)

-- `close(r.unschedule)`, once
unfoldable pub unschedule : Handle → Handle
unschedule h = record h { unscheduled = true }

unfoldable pub terminate : ℕ → Handle → Handle × SignalError
unfolding unschedule signal
terminate sig h = signal sig (record (unschedule h) { protected = false })

-- What `start` reads of the handle after a run.
abbrev pub attempt_of : JobState → Handle → Attempt
attempt_of state h = record { state = state; protected = h.protected; unscheduled = h.unscheduled }

-- After Terminate a job is not run again, whatever its command says, however the run ends, and
-- whether the signal reached the job or not.
pub terminate-stop :
    (cmd : Command) (runs sig : ℕ) (state : JobState) (h : Handle)
    → after_run cmd runs (attempt_of state (terminate sig h).0) ≡ stop
unfolding after_run terminate
terminate-stop cmd runs sig state h = ground arith
