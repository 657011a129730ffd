-- ===== src/Mgr/Job/Run.antt =====
-- base/mgr/job.go, `run`: what a process says, up to its exit. The `select` of the loop takes one
-- event at a time; the order in which they come is an argument. Clocks and the hooks' own state are
-- left out: a tick changes nothing here.
pub mod Ended
pub mod Outcome
pub mod Output
use debug_bootstrap.Prelude.{
  ℕ, Bool, true, false, Option, none, some, List, [], ◌∷◌, ◌++◌, Bytes, codes, if◌then◌else◌,
}
use debug_bootstrap.Prelude.Int.{positive}
use Prim.Native.Nat.{bit_or}
use mathlib.Core.Option
use debug_bootstrap.Stream.Meta.{
  Message, is, assert, base, code, level, set, stream_flag, exit_success_flag, exit_error_flag,
}
use debug_bootstrap.Stream.Buffer.{Buffer, new_buffer, append, to_string}
use debug_bootstrap.Pm.Command.{Command, standard_stream_buffer_size, generic_stream_buffer_size}
use debug_bootstrap.Pm.Result.{
  JobResult, JobState, error, success, timeout, new_job_result, result_message_levels, level_stdout,
  level_stderr, level_critical,
}
use debug_bootstrap.Pm.Failure.{Failure, run_code}

-- `closed` is a receive from the closed channel of messages, which gives a nil message.
pub data Event : Type 0 where
  signalled : ℕ → Event
  timed_out ticked closed : Event
  said : Message → Event

-- The variables of the loop. `forwarded` are the messages given to the manager and the subscribers.
pub record Loop : Type 0 where
  pub state : JobState
  pub result : Option Message
  pub critical : Bytes
  pub stdout : Buffer Bytes
  pub stderr : Buffer Bytes
  pub backlog : Buffer Message
  pub signals : List ℕ
  pub forwarded : List Message

-- newJob: the backlog of a new job
unfoldable pub new_backlog : Buffer Message
new_backlog = new_buffer generic_stream_buffer_size

-- `backlog` is the job's own, which is filled again in each of its runs.
unfoldable pub start_loop : Buffer Message → Loop
start_loop backlog = record {
  state = error;
  result = none;
  critical = [];
  stdout = new_buffer standard_stream_buffer_size;
  stderr = new_buffer standard_stream_buffer_size;
  backlog = backlog;
  signals = [];
  forwarded = [];
}

-- The chain of tests on a message's level.
unfoldable pub file : Message → Loop → Loop
file m l =
    if assert m.meta result_message_levels
    then record l { result = some m }
    else if assert m.meta (level_stdout ∷ [])
    then record l { stdout = append l.stdout m.message }
    else if assert m.meta (level_stderr ∷ [])
    then record l { stderr = append l.stderr m.message }
    else if assert m.meta (level_critical ∷ [])
    then record l { critical = m.message }
    else l

-- What the manager makes of a message's word: the code is cut off, and a command that streams has
-- its messages marked (msgCallback).
unfoldable pub outgoing : Bool → Message → Message
outgoing stream m =
    let plain = base m.meta in record m { meta = if stream then set plain stream_flag else plain }

-- One message: the state, the buffers, and the message that goes on. The backlog holds it by
-- pointer, so what is done to its word shows there too.
unfoldable pub on_message : Bool → Message → Loop → Loop
unfolding file
on_message stream m l =
    let out = outgoing stream m in
    let seen = record l {
      state = if is m.meta exit_success_flag then success else l.state;
      backlog = append l.backlog out;
    } in
    record (file m seen) { forwarded = l.forwarded ++ out ∷ [] }

-- syscall.SIGKILL
abbrev pub sigkill : ℕ
sigkill = 9

-- Only a Signaler gets signals; a timeout changes the state of such a process only.
unfoldable pub send_signal : Bool → ℕ → Loop → Loop
send_signal signaler sig l = if signaler then record l { signals = l.signals ++ sig ∷ [] } else l

unfoldable pub on_timeout : Bool → Loop → Loop
unfolding send_signal
on_timeout signaler l =
    if signaler then record (send_signal signaler sigkill l) { state = timeout } else l

-- How the loop is left: by a message with an exit flag, or by the panic on a nil message.
pub data End : Type 0 where
  exited : ℕ → Loop → End
  panicked : Loop → End

-- The message that ends the loop, by the flags with which it goes on.
unfoldable pub is_exit : Bool → Message → Bool
is_exit stream m = is (outgoing stream m).meta (bit_or exit_success_flag exit_error_flag)

-- The loop over the events, `none` where they end before it does.
unfoldable pub loop : Bool → Bool → List Event → Loop → Option End
loop stream signaler [] l = none
loop stream signaler (signalled sig ∷ es) l = loop stream signaler es (send_signal signaler sig l)
loop stream signaler (timed_out ∷ es) l = loop stream signaler es (on_timeout signaler l)
loop stream signaler (ticked ∷ es) l = loop stream signaler es l
loop stream signaler (closed ∷ es) l = some (panicked l)
loop stream signaler (said m ∷ es) l =
    let rest = loop stream signaler es (on_message stream m l) in
    if is_exit stream m then some (exited (code m.meta) (on_message stream m l)) else rest

with_result : Option Message → JobResult → JobResult
with_result none r = r
with_result (some m) r = record r { level = level m.meta; payload = m.message }

-- A result message in `result` has lost its code, not its level.
unfoldable pub finish : Command → End → JobResult
unfolding with_result
finish cmd (exited c l) =
    record (with_result l.result (record (new_job_result cmd) { state = l.state; code = c })) {
      streams = to_string l.stdout.list ∷ to_string l.stderr.list ∷ [];
      critical = l.critical;
    }
finish cmd (panicked l) = record (new_job_result cmd) {
  state = error;
  critical = codes "PANIC(runtime error: invalid memory address or nil pointer dereference)";
}

-- The process could not be started: the error is the result.
unfoldable pub could_not_start : Command → Failure → Bytes → JobResult
could_not_start cmd err text = record (new_job_result cmd) {
  state = error;
  code = elim (run_code err) [ none ↦ 0 | some c ↦ c ];
  payload = text;
}

-- `started` is what ps.Run() returned: an error with its text, or no error.
unfoldable pub run :
    Command → Bool → Buffer Message → Option (Failure × Bytes) → List Event → Option JobResult
run cmd signaler backlog (some (err, text)) es = some (could_not_start cmd err text)
run cmd signaler backlog none es =
    Option.map (finish cmd) (loop cmd.stream signaler es (start_loop backlog))

-- timeout(): a limit is set for a positive number of seconds only.
unfoldable pub has_timeout : Command → Bool
has_timeout cmd = positive cmd.max_time
