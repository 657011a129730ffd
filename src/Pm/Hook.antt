-- ===== src/Pm/Hook.antt =====
-- base/pm/runnerhook.go: what is called while a job runs. A `sync.Once` is a flag in the hook's
-- state; an action is an output of the call.
pub mod Once
use debug_bootstrap.Prelude.{
  ℕ, Bool, true, false, Option, none, some, List, [], ◌∷◌, ◌++◌, Bytes, nat_beq, ltb, if◌then◌else◌,
}
use debug_bootstrap.Stream.Meta.{Message, level}
use debug_bootstrap.Pm.Result.{JobState, success, level_stdout, level_stderr}

-- `done` is the `sync.Once` of the action. The pattern of a MatchHook is compiled on its first
-- message: `compiled` is none before, and some none if the compiler refused it.
pub data Hook : Type 0 where
  delay_hook : (done : Bool) → (delay : ℕ) → Hook
  exit_hook : (done : Bool) → Hook
  pid_hook : (done : Bool) → Hook
  match_hook : (done : Bool) → (pattern : Bytes) → (p : Option (Option Bytes)) → Hook
  buffer_hook : (out err : Bytes) → Hook
  message_hook : Hook

-- The call of a hook's action, with what it is given.
pub data Action : Type 0 where
  delayed : Action
  exited : Bool → Action
  got_pid : ℕ → Action
  matched : Message → Action
  received : Message → Action

unfoldable pub is_success : JobState → Bool
is_success success = true
is_success _ = false

-- o.Do(action)
unfoldable pub once : (Bool → Hook) → Bool → Action → Hook × List Action
once hook true a = (hook true, [])
once hook false a = (hook true, a ∷ [])

unfoldable pub tick : Hook → ℕ → Hook × List Action
unfolding once
tick (delay_hook done delay) d =
    if ltb delay d then once (λ b. delay_hook b delay) done delayed else (delay_hook done delay, [])
tick h d = (h, [])

unfoldable pub exit : Hook → JobState → Hook × List Action
unfolding once is_success
exit (exit_hook done) state = once exit_hook done (exited (is_success state))
exit h state = (h, [])

unfoldable pub pid : Hook → ℕ → Hook × List Action
unfolding once
pid (pid_hook done) n = once pid_hook done (got_pid n)
pid h n = (h, [])

-- The regular expressions are Go's: `compile` accepts a pattern or not, `matches` runs it.
module _ (compile : Bytes → Bool) (matches : Bytes → Bytes → Bool) where
  unfoldable pub compile_once : Bytes → Option (Option Bytes) → Option Bytes
  compile_once pattern none = if compile pattern then some pattern else none
  compile_once pattern (some p) = p

  -- After its one action the hook drops its pattern.
  unfoldable pub match_message : Bool → Bytes → Option Bytes → Message → Hook × List Action
  match_message done pattern none msg = (match_hook done pattern (some none), [])
  match_message true pattern (some p) msg = (match_hook true pattern (some (some p)), [])
  match_message false pattern (some p) msg =
      if matches p msg.message
      then (match_hook true pattern (some none), matched msg ∷ [])
      else (match_hook false pattern (some (some p)), [])

  unfoldable pub message : Hook → Message → Hook × List Action
  unfolding compile_once match_message
  message (match_hook done pattern p) msg = match_message done pattern (compile_once pattern p) msg
  message (buffer_hook out err) msg =
      if nat_beq (level msg.meta) level_stdout
      then (buffer_hook (out ++ msg.message) err, [])
      else if nat_beq (level msg.meta) level_stderr
      then (buffer_hook out (err ++ msg.message), [])
      else (buffer_hook out err, [])
  message message_hook msg = (message_hook, received msg ∷ [])
  message h msg = (h, [])
