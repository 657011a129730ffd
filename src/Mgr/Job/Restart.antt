-- ===== src/Mgr/Job/Restart.antt =====
-- base/mgr/job.go, `start`: whether a job runs again after a run.
pub mod Count
use debug_bootstrap.Prelude.{
  ℕ, suc, ◌+◌, Bool, true, false, Option, none, some, List, [], ◌∷◌, ◌&&◌, ◌||◌, not, if◌then◌else◌,
}
use debug_bootstrap.Prelude.Int.{ℤ, pos, positive, ltz}
use debug_bootstrap.Pm.Command.{Command}
use debug_bootstrap.Pm.Result.{JobState, success}

-- What the loop reads after one run: the state of the result, the flag `Protected`, which Terminate
-- takes away, and whether `unschedule` is closed while the job waits for its next run.
pub record Attempt : Type 0 where
  pub state : JobState
  pub protected : Bool
  pub unscheduled : Bool

-- The delay before the next run is the back-off's, or a number of seconds.
pub data Delay : Type 0 where
  backed_off : Delay
  seconds : ℤ → Delay

-- `again` has the new count of failed runs.
pub data Next : Type 0 where
  stop : Next
  again : ℕ → Delay → Next

abbrev pub succeeded : JobState → Bool
succeeded success = true
succeeded _ = false

-- runs++ for a failed run of a command that may be restarted
unfoldable pub count_run : Command → ℕ → JobState → ℕ
count_run cmd runs state =
    if not (succeeded state) && positive cmd.max_restart then suc runs else runs

-- Are there restarts left?
unfoldable pub may_restart : Command → ℕ → JobState → Bool
may_restart cmd runs state =
    (not (succeeded state) && positive cmd.max_restart) && ltz (pos runs) cmd.max_restart

wait : Bool → ℕ → Delay → Next
wait true runs d = stop
wait false runs d = again runs d

-- The decision after a run. The delay of the back-off looks at nothing, so what it is decided on is
-- the flag at the end of the run; the other waits end when `unschedule` is closed.
unfoldable pub after_run : Command → ℕ → Attempt → Next
unfolding count_run may_restart wait
after_run cmd runs a =
    if a.protected
    then again runs backed_off
    else let runs' = count_run cmd runs a.state in
      if positive cmd.recurring_period
      then wait a.unscheduled runs' (seconds cmd.recurring_period)
      else if may_restart cmd runs' a.state
      then wait a.unscheduled runs' (seconds (pos 1))
      else stop

-- The loop over the attempts: how many runs were made when it ended, `none` where it goes on.
unfoldable pub runs_from : Command → ℕ → ℕ → List Attempt → Option ℕ
runs_from cmd made runs [] = none
runs_from cmd made runs (a ∷ ts) = elim (after_run cmd runs a) [
  | stop ↦ some (suc made)
  | again runs' d ↦ runs_from cmd (suc made) runs' ts
]

-- Where the loop stands: in a run, or in the wait of a recurring or restarted job; or in the delay
-- of the back-off, with the next run decided on.
pub data Phase : Type 0 where
  in_run in_back_off : Phase

-- How many runs the loop begins from here on, `none` where it goes on
unfoldable pub begins : Phase → Command → ℕ → List Attempt → Option ℕ
unfolding runs_from after_run
begins in_run cmd runs [] = none
begins in_run cmd runs (a ∷ ts) = elim (after_run cmd runs a) [
  | stop ↦ some 0
  | again runs' d ↦ runs_from cmd 0 runs' ts
]
begins in_back_off cmd runs ts = runs_from cmd 0 runs ts
