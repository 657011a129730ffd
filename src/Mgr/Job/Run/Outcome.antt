-- ===== src/Mgr/Job/Run/Outcome.antt =====
-- How a run of base/mgr/job.go ends: its state, its code and its output, from the events alone.
use debug_bootstrap.Prelude.{
  ℕ, ◌≡◌, refl, ap, ◌∙◌, Bool, true, none, some, List, [], ◌∷◌, ◌++◌, if◌then◌else◌, arith,
}
use debug_bootstrap.Stream.Meta.{Message, code, is, exit_success_flag}
use debug_bootstrap.Stream.Buffer.{Buffer, append_all, append_all-newest, new_buffer, to_string}
use debug_bootstrap.Pm.Command.{Command}
use debug_bootstrap.Pm.Result.{
  new_job_result, JobResult, success, error, level_stdout, level_stderr, level_critical,
}
use debug_bootstrap.Mgr.Job.Run.{
  Event, signalled, timed_out, ticked, closed, said, Loop, exited, on_message, send_signal,
  on_timeout, is_exit, start_loop, finish, run,
}
use debug_bootstrap.Mgr.Job.Run.Output.{
  through, messages, texts_at, last_or, last_result, Collected, through-Collected,
}
use debug_bootstrap.Mgr.Job.Run.Ended.{
  GoesOn, state-message, state_after, state-through, tail_text, level_of, payload_of, loop-exit,
}

-- What the result takes over from the loop.
pub record Reports (r : JobResult) (c : ℕ) (l : Loop) : Type 0 where
  pub state : r.state ≡ l.state
  pub code : r.code ≡ c
  pub streams : r.streams ≡ to_string l.stdout.list ∷ to_string l.stderr.list ∷ []
  pub critical : r.critical ≡ l.critical
  pub level : r.level ≡ level_of l.result
  pub payload : r.payload ≡ payload_of l.result

finish-Reports : (cmd : Command) (c : ℕ) (l : Loop) → Reports (finish cmd (exited c l)) c l
unfolding finish new_job_result
finish-Reports cmd c l = ground arith

messages-append : (es fs : List Event) → messages (es ++ fs) ≡ messages es ++ messages fs
messages-append [] fs = refl
messages-append (said m ∷ es) fs = ap (◌∷◌ m) (messages-append es fs)
messages-append (signalled sig ∷ es) fs = messages-append es fs
messages-append (timed_out ∷ es) fs = messages-append es fs
messages-append (ticked ∷ es) fs = messages-append es fs
messages-append (closed ∷ es) fs = messages-append es fs

through-append :
    (stream signaler : Bool) (es fs : List Event) (l : Loop)
    → through stream signaler (es ++ fs) l
      ≡ through stream signaler fs (through stream signaler es l)
unfolding through
through-append stream signaler [] fs l = refl
through-append stream signaler (said m ∷ es) fs l =
    through-append stream signaler es fs (on_message stream m l)
through-append stream signaler (signalled sig ∷ es) fs l =
    through-append stream signaler es fs (send_signal signaler sig l)
through-append stream signaler (timed_out ∷ es) fs l =
    through-append stream signaler es fs (on_timeout signaler l)
through-append stream signaler (ticked ∷ es) fs l = through-append stream signaler es fs l
through-append stream signaler (closed ∷ es) fs l = through-append stream signaler es fs l

-- All that was said, the last message included, is collected.
all-Collected :
    (stream signaler : Bool) (b : Buffer Message) (es : List Event) (m : Message)
    → Collected
        (start_loop b)
        (on_message stream m (through stream signaler es (start_loop b)))
        (messages es ++ m ∷ [])
unfolding through
all-Collected stream signaler b es m =
    rw
      (
        messages-append es (said m ∷ []),
        through-append stream signaler es (said m ∷ []) (start_loop b),
      )
      at (through-Collected stream signaler (es ++ said m ∷ []) (start_loop b))

-- A run whose process started ends with the first message that bears an exit flag, whatever comes
-- after it. Its state is SUCCESS if that message has the success flag; if not, it is TIMEOUT if the
-- time limit passed before and the process takes signals, and ERROR otherwise. Its code is that
-- message's; its streams are the newest hundred texts of either standard stream; its critical text
-- is the last critical message, and its level and data are those of the last result message.
pub run_outcome :
    (cmd : Command) (signaler : Bool) (b : Buffer Message) (es rest : List Event) (m : Message)
    → GoesOn cmd.stream es
    → is_exit cmd.stream m ≡ true
    → let ms = messages es ++ m ∷ [] in
      (r : JobResult) × (run cmd signaler b none (es ++ said m ∷ rest) ≡ some r)
      × (r.state ≡ (if is m.meta exit_success_flag then success else state_after signaler error es))
      × (r.code ≡ code m.meta)
      × (r.streams ≡ tail_text level_stdout ms ∷ tail_text level_stderr ms ∷ [])
      × (r.critical ≡ last_or [] (texts_at level_critical ms))
      × (r.level ≡ level_of (last_result none ms))
      × (r.payload ≡ payload_of (last_result none ms))
unfolding run start_loop
run_outcome cmd signaler b es rest m h e =
    let ms = messages es ++ m ∷ [] in
    let l = on_message cmd.stream m (through cmd.stream signaler es (start_loop b)) in
    let seen = all-Collected cmd.stream signaler b es m in
    let told = finish-Reports cmd (code m.meta) l in
    (
      finish cmd (exited (code m.meta) l),
      rw (loop-exit cmd.stream signaler es rest m (start_loop b) h e),
      told.state
          ∙ state-message cmd.stream m (through cmd.stream signaler es (start_loop b))
          ∙ ap (λ s. if is m.meta exit_success_flag then success else s)
              (state-through cmd.stream signaler es (start_loop b) h),
      told.code,
      told.streams
          ∙ ap (λ c. to_string (Buffer.list c) ∷ to_string l.stderr.list ∷ []) seen.stdout
          ∙ ap
              (λ c.
                to_string (append_all (new_buffer 100) (texts_at level_stdout ms)).list
                ∷ to_string (Buffer.list c)
                ∷ [])
              seen.stderr
          ∙ rw (
            append_all-newest 100 (texts_at level_stdout ms),
            append_all-newest 100 (texts_at level_stderr ms),
          ),
      told.critical ∙ seen.critical,
      told.level ∙ ap level_of seen.result,
      told.payload ∙ ap payload_of seen.result,
    )
