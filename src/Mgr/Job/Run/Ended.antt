-- ===== src/Mgr/Job/Run/Ended.antt =====
-- base/mgr/job.go: the state, the code and the texts of a run that has ended.
use debug_bootstrap.Prelude.{
  ℕ, ◌-◌, ◌≡◌, refl, ap, ◌∙◌, Bool, true, false, Option, none, some, List, [], ◌∷◌, ◌++◌, Bytes,
  if◌then◌else◌, arith, drop, length, All,
}
use debug_bootstrap.Stream.Meta.{
  Message, level, code, is, base, set, exit_success_flag, stream_flag,
}
use debug_bootstrap.Stream.Meta.Fields.{is-either, is-base, set_fields}
use debug_bootstrap.Stream.Buffer.{to_string}
use debug_bootstrap.Pm.Result.{JobState, success, timeout}
use debug_bootstrap.Mgr.Job.Run.{
  Event, signalled, timed_out, ticked, closed, said, Loop, exited, on_message, send_signal,
  on_timeout, is_exit, outgoing, loop,
}
use debug_bootstrap.Mgr.Job.Run.Output.{through, texts_at}

-- No event of these ends the loop.
abbrev pub goes_on : Bool → Event → Bool
goes_on stream (said m) = if is_exit stream m then false else true
goes_on stream closed = false
goes_on stream (signalled sig) = true
goes_on stream timed_out = true
goes_on stream ticked = true

abbrev pub GoesOn : Bool → List Event → Type 0
GoesOn stream es = All (λ e. goes_on stream e ≡ true) es

abbrev pub has_timed_out : List Event → Bool
has_timed_out [] = false
has_timed_out (timed_out ∷ es) = true
has_timed_out (signalled sig ∷ es) = has_timed_out es
has_timed_out (ticked ∷ es) = has_timed_out es
has_timed_out (closed ∷ es) = has_timed_out es
has_timed_out (said m ∷ es) = has_timed_out es

-- The loop runs through the events that do not end it.
pub loop-through :
    (stream signaler : Bool) (es rest : List Event) (l : Loop)
    → GoesOn stream es
    → loop stream signaler (es ++ rest) l ≡ loop stream signaler rest (through stream signaler es l)
unfolding loop through
loop-through stream signaler [] rest l h = refl
loop-through stream signaler (signalled sig ∷ es) rest l h =
    loop-through stream signaler es rest (send_signal signaler sig l) h.1
loop-through stream signaler (timed_out ∷ es) rest l h =
    loop-through stream signaler es rest (on_timeout signaler l) h.1
loop-through stream signaler (ticked ∷ es) rest l h = loop-through stream signaler es rest l h.1
loop-through stream signaler (closed ∷ es) rest l h = cc (h.0)
loop-through stream signaler (said m ∷ es) rest l h =
    let stays : is_exit stream m ≡ false = ground (arith, h.0) in
    rw stays (loop-through stream signaler es rest (on_message stream m l) h.1)

-- A success flag is an exit flag, whatever is done to the word before it is tested.
pub is_exit-success :
    (stream : Bool) (m : Message) → is m.meta exit_success_flag ≡ true → is_exit stream m ≡ true
unfolding is_exit outgoing
is_exit-success true m h = is-either (set (base m.meta) stream_flag) (
    (set_fields (base m.meta) stream_flag exit_success_flag (omega arith) (omega arith)).0
    ∙ rw (is-base m.meta exit_success_flag, h))
is_exit-success false m h = is-either (base m.meta) (is-base m.meta exit_success_flag ∙ h)

-- A message that does not end the loop leaves the state.
pub state-on_message :
    (stream : Bool) (m : Message) (l : Loop)
    → is_exit stream m ≡ false
    → (on_message stream m l).state ≡ l.state
unfolding on_message
state-on_message stream m l h = ground (arith, h, is_exit-success stream m)

pub state-message :
    (stream : Bool) (m : Message) (l : Loop)
    → (on_message stream m l).state ≡ (if is m.meta exit_success_flag then success else l.state)
unfolding on_message
state-message stream m l = ground arith

abbrev pub state_after : Bool → JobState → List Event → JobState
state_after signaler s es = if (if signaler then has_timed_out es else false) then timeout else s

pub timeout_stays : (b : Bool) → (if b then timeout else timeout) ≡ timeout
timeout_stays true = refl
timeout_stays false = refl

pub state-through :
    (stream signaler : Bool) (es : List Event) (l : Loop)
    → GoesOn stream es
    → (through stream signaler es l).state ≡ state_after signaler l.state es
unfolding through on_timeout send_signal
state-through stream true [] l h = refl
state-through stream false [] l h = refl
state-through stream true (signalled sig ∷ es) l h =
    state-through stream true es (send_signal true sig l) h.1
state-through stream false (signalled sig ∷ es) l h = state-through stream false es l h.1
state-through stream true (timed_out ∷ es) l h =
    state-through stream true es (on_timeout true l) h.1 ∙ timeout_stays (has_timed_out es)
state-through stream false (timed_out ∷ es) l h = state-through stream false es l h.1
state-through stream signaler (ticked ∷ es) l h = state-through stream signaler es l h.1
state-through stream signaler (closed ∷ es) l h = cc (h.0)
state-through stream signaler (said m ∷ es) l h =
    let stays : is_exit stream m ≡ false = ground (arith, h.0) in
    state-through stream signaler es (on_message stream m l) h.1
    ∙ ap (λ s. state_after signaler s es) (state-on_message stream m l stays)

-- The text of a standard stream: the newest hundred messages of its level.
abbrev pub tail_text : ℕ → List Message → Bytes
tail_text n ms = let ts = texts_at n ms in to_string (drop (length ts - 100) ts)

abbrev pub level_of : Option Message → ℕ
level_of none = 0
level_of (some m) = level m.meta

abbrev pub payload_of : Option Message → Bytes
payload_of none = []
payload_of (some m) = m.message

pub loop-exit :
    (stream signaler : Bool) (es rest : List Event) (m : Message) (l : Loop)
    → GoesOn stream es
    → is_exit stream m ≡ true
    → loop stream signaler (es ++ said m ∷ rest) l
      ≡ some (exited (code m.meta) (on_message stream m (through stream signaler es l)))
unfolding loop
loop-exit stream signaler es rest m l h e =
    loop-through stream signaler es (said m ∷ rest) l h ∙ rw e
