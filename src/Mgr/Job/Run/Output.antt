-- ===== src/Mgr/Job/Run/Output.antt =====
-- The variables of the loop of `run` (base/mgr/job.go) after some events that do not end it.
use debug_bootstrap.Prelude.{
  ℕ, ◌≡◌, refl, sym, ap, ◌∙◌, Bool, true, false, Option, some, List, [], ◌∷◌, ◌++◌, Bytes,
  if◌then◌else◌, nat_beq, arith,
}
use debug_bootstrap.Stream.Meta.{Message, level, assert, is, exit_success_flag}
use debug_bootstrap.Stream.Buffer.{Buffer, append, append_all}
use debug_bootstrap.Pm.Result.{
  success, level_stdout, level_stderr, level_critical, result_message_levels,
}
use debug_bootstrap.Mgr.Job.Run.{
  Event, signalled, timed_out, ticked, closed, said, Loop, file, on_message, send_signal,
  on_timeout, outgoing,
}

-- The loop's variables after the events.
unfoldable pub through : Bool → Bool → List Event → Loop → Loop
through stream signaler [] l = l
through stream signaler (signalled sig ∷ es) l =
    through stream signaler es (send_signal signaler sig l)
through stream signaler (timed_out ∷ es) l = through stream signaler es (on_timeout signaler l)
through stream signaler (ticked ∷ es) l = through stream signaler es l
through stream signaler (closed ∷ es) l = through stream signaler es l
through stream signaler (said m ∷ es) l = through stream signaler es (on_message stream m l)

-- The messages among the events, and the texts of those of one level.
abbrev pub messages : List Event → List Message
messages [] = []
messages (said m ∷ es) = m ∷ messages es
messages (signalled sig ∷ es) = messages es
messages (timed_out ∷ es) = messages es
messages (ticked ∷ es) = messages es
messages (closed ∷ es) = messages es

abbrev pub texts_at : ℕ → List Message → List Bytes
texts_at n [] = []
texts_at n (m ∷ ms) = if nat_beq (level m.meta) n then m.message ∷ texts_at n ms else texts_at n ms

-- The last text of a level, or what was there before.
abbrev pub last_or : Bytes → List Bytes → Bytes
last_or b [] = b
last_or b (t ∷ ts) = last_or t ts

abbrev pub last_result : Option Message → List Message → Option Message
last_result r [] = r
last_result r (m ∷ ms) = last_result (if assert m.meta result_message_levels then some m else r) ms

stdout-file :
    (m : Message) (l : Loop)
    → (file m l).stdout ≡ append_all l.stdout (texts_at level_stdout (m ∷ []))
unfolding file assert level append_all
stdout-file m l = ground arith

stderr-file :
    (m : Message) (l : Loop)
    → (file m l).stderr ≡ append_all l.stderr (texts_at level_stderr (m ∷ []))
unfolding file assert level append_all
stderr-file m l = ground arith

critical-file :
    (m : Message) (l : Loop)
    → (file m l).critical ≡ last_or l.critical (texts_at level_critical (m ∷ []))
unfolding file assert level
critical-file m l = ground arith

result-file : (m : Message) (l : Loop) → (file m l).result ≡ last_result l.result (m ∷ [])
unfolding file
result-file m l = ground arith

append_all-append :
    (b : Buffer Bytes) (xs ys : List Bytes)
    → append_all b (xs ++ ys) ≡ append_all (append_all b xs) ys
unfolding append_all
append_all-append b [] ys = refl
append_all-append b (x ∷ xs) ys = append_all-append (append b x) xs ys

texts_at_first :
    (n : ℕ) (m : Message) (ms : List Message)
    → texts_at n (m ∷ ms) ≡ texts_at n (m ∷ []) ++ texts_at n ms
texts_at_first n m ms = ground arith

-- The loop keeps the newest hundred texts of each standard stream, the last critical text, and the
-- last message that is a result.
pub record Collected (l l' : Loop) (ms : List Message) : Type 0 where
  pub stdout : l'.stdout ≡ append_all l.stdout (texts_at level_stdout ms)
  pub stderr : l'.stderr ≡ append_all l.stderr (texts_at level_stderr ms)
  pub critical : l'.critical ≡ last_or l.critical (texts_at level_critical ms)
  pub result : l'.result ≡ last_result l.result ms

Collected-none :
    (l l' : Loop)
    → l'.stdout ≡ l.stdout
    → l'.stderr ≡ l.stderr
    → l'.critical ≡ l.critical
    → l'.result ≡ l.result
    → Collected l l' []
unfolding append_all
Collected-none l l' o e c r = record { stdout = o; stderr = e; critical = c; result = r }

Collected-append :
    {l k l' : Loop} {m : Message} {ms : List Message}
    → Collected l k (m ∷ [])
    → Collected k l' ms
    → Collected l l' (m ∷ ms)
Collected-append {l} {k} {l'} {m} {ms} a b = record {
  stdout =
      b.stdout
      ∙ ap (λ c. append_all c (texts_at level_stdout ms)) a.stdout
      ∙ sym (append_all-append l.stdout (texts_at level_stdout (m ∷ [])) (texts_at level_stdout ms))
      ∙ ap (append_all l.stdout) (sym (texts_at_first level_stdout m ms));
  stderr =
      b.stderr
      ∙ ap (λ c. append_all c (texts_at level_stderr ms)) a.stderr
      ∙ sym (append_all-append l.stderr (texts_at level_stderr (m ∷ [])) (texts_at level_stderr ms))
      ∙ ap (append_all l.stderr) (sym (texts_at_first level_stderr m ms));
  critical = ground (arith, a.critical, b.critical);
  result = b.result ∙ ap (λ r. last_result r ms) a.result;
}

pub on_message-Collected :
    (stream : Bool) (m : Message) (l : Loop) → Collected l (on_message stream m l) (m ∷ [])
unfolding on_message
on_message-Collected stream m l =
    let seen : Loop = record l {
      state = if is m.meta exit_success_flag then success else l.state;
      backlog = append l.backlog (outgoing stream m);
    } in
    record {
      stdout = stdout-file m seen;
      stderr = stderr-file m seen;
      critical = critical-file m seen;
      result = result-file m seen;
    }

-- Signals and timeouts collect nothing.
Collected-send_signal :
    (signaler : Bool) (sig : ℕ) (l l' : Loop) (ms : List Message)
    → Collected (send_signal signaler sig l) l' ms
    → Collected l l' ms
unfolding send_signal
Collected-send_signal true sig l l' ms c = record {
  stdout = c.stdout;
  stderr = c.stderr;
  critical = c.critical;
  result = c.result;
}
Collected-send_signal false sig l l' ms c = c

Collected-on_timeout :
    (signaler : Bool) (l l' : Loop) (ms : List Message)
    → Collected (on_timeout signaler l) l' ms
    → Collected l l' ms
unfolding on_timeout
Collected-on_timeout true l l' ms c = record {
  stdout = c.stdout;
  stderr = c.stderr;
  critical = c.critical;
  result = c.result;
}
Collected-on_timeout false l l' ms c = c

-- What is collected over any events is what their messages say.
pub through-Collected :
    (stream signaler : Bool) (es : List Event) (l : Loop)
    → Collected l (through stream signaler es l) (messages es)
unfolding through
through-Collected stream signaler [] l = Collected-none l l refl refl refl refl
through-Collected stream signaler (signalled sig ∷ es) l =
    Collected-send_signal signaler sig l _ _
      (through-Collected stream signaler es (send_signal signaler sig l))
through-Collected stream signaler (timed_out ∷ es) l =
    Collected-on_timeout signaler l _ _
      (through-Collected stream signaler es (on_timeout signaler l))
through-Collected stream signaler (ticked ∷ es) l = through-Collected stream signaler es l
through-Collected stream signaler (closed ∷ es) l = through-Collected stream signaler es l
through-Collected stream signaler (said m ∷ es) l =
    Collected-append (on_message-Collected stream m l)
      (through-Collected stream signaler es (on_message stream m l))
