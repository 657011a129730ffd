-- ===== src/Mgr/Slice.antt =====
-- base/mgr/pm.go, `RunSlice`: the services of a slice wait for one another. One goroutine for each
-- service waits for the services that it comes after, and then runs it or gives up; the hooks of a
-- service that runs release its key.
pub mod Progress
pub mod Reached
pub mod Priority
use debug_bootstrap.Prelude.{
  Bool, true, false, Option, none, some, List, [], ◌∷◌, Bytes, bytes_equal, if◌then◌else◌, ◌==◌,
  zero, suc, ◌*◌,
}
use debug_bootstrap.Prelude.Int.{ℤ, pos, negsuc, positive}
use debug_bootstrap.Prelude.Dict.{Dict, lookup, insert}
use debug_bootstrap.Settings.Startup.{Startup}
use debug_bootstrap.Pm.Hook.{Hook, delay_hook, exit_hook, match_hook}
use debug_bootstrap.Mgr.WaitMachine.{Machine, new_state_machine, wait, release}

-- `waiting` is a service whose goroutine has not gone past its Wait, also one not begun.
pub data Status : Type 0 where
  waiting skipped refused running not_started : Status

pub record Slice : Type 0 where
  pub machine : Machine
  pub status : Dict Bytes Status

status_or_waiting : Option Status → Status
status_or_waiting none = waiting
status_or_waiting (some st) = st

unfoldable pub status_of : Slice → Bytes → Status
unfolding status_or_waiting
status_of sl k = status_or_waiting (lookup k sl.status)

-- A key is released, and its service moved on.
unfoldable pub settle : Bytes → Bool → Status → Slice → Slice
settle k b st sl = record { machine = (release k b sl.machine).0; status = insert k st sl.status }

pub keys_of : List Startup → List Bytes
keys_of [] = []
keys_of (s ∷ rest) = s.key ∷ keys_of rest

skip_unmet : (Startup → Bool) → List Startup → Slice → Slice
unfolding settle
skip_unmet met [] sl = sl
skip_unmet met (s ∷ rest) sl =
    skip_unmet met rest (if met s then sl else settle s.key false skipped sl)

-- The loop over the slice, before the goroutines: a service whose condition is not met is skipped,
-- and its key released for those that wait for it. `met` is the condition's value.
unfoldable pub launch : (Startup → Bool) → List Startup → Slice
unfolding skip_unmet keys_of
launch met slice =
    skip_unmet met slice (record { machine = new_state_machine (keys_of slice); status = [] })

-- The hooks of a service, in order: the match or the delay that says it is running, and its exit.
unfoldable pub hooks_of : Startup → List Hook
hooks_of s =
    let ends = exit_hook false ∷ [] in
    if s.running_match == []
    then elim s.running_delay [
      | pos zero ↦ delay_hook false 2_000_000_000 ∷ ends
      | pos (suc n) ↦ delay_hook false (suc n * 1_000_000_000) ∷ ends
      | negsuc n ↦ ends
    ]
    else match_hook false s.running_match none ∷ ends

go_past : Bytes → Bool → Slice → Bool → Slice
unfolding settle
go_past k runs sl false = settle k false refused sl
go_past k false sl true = settle k false not_started sl
go_past k true sl true = record sl { status = insert k running sl.status }

-- The goroutine of a service goes past its Wait, or `none` where it blocks. `runs` is what Run
-- makes of the command: a job, or an error.
unfoldable pub advance : Startup → Bool → Slice → Option Slice
unfolding go_past
advance s runs sl = elim (wait s.after sl.machine) [
  | none ↦ none
  | some can_run ↦ some (go_past s.key runs sl can_run)
]

-- A hook of a running service: `true` when it matched or ran long enough, the success of the job
-- when it exits.
unfoldable pub hook_fires : Bytes → Bool → Slice → Slice
unfolding settle
hook_fires k b sl = settle k b running sl
