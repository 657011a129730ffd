-- ===== src/Mgr/Manager/Shutdown.antt =====
-- base/mgr/pm.go: Kill, and the end of all jobs. A job stands in the table with what its handle
-- reads and writes; the queue is the package's.
use debug_bootstrap.Prelude.{
  ℕ, ◌≡◌, refl, Bool, true, false, Option, none, some, List, [], ◌∷◌, Bytes, contains, bytes_equal,
  sym, ◌∙◌, subst, ◌==◌, if◌then◌else◌, Bool-cases, inl, inr, arith,
}
use debug_bootstrap.Prelude.Dict.{Dict, lookup, insert}
use debug_bootstrap.Pm.Command.{Command}
use debug_bootstrap.Pm.Result.{JobState}
use debug_bootstrap.Mgr.Queue.{Queue, push, close}
use debug_bootstrap.Mgr.Manager.{queue_of}
use debug_bootstrap.Mgr.Job.Run.{sigkill}
use debug_bootstrap.Mgr.Job.Restart.{
  Attempt, stop, after_run, in_run, in_back_off, runs_from, begins,
}
use debug_bootstrap.Mgr.Job.Signals.{Handle, signal, terminate, attempt_of, terminate-stop}

abbrev pub sigterm : ℕ
sigterm = 15

pub record Entry : Type 0 where
  pub command : Command
  pub handle : Handle

pub record Running : Type 0 where
  pub jobs : Dict Bytes Entry
  pub queue : Queue Command

unfoldable pub terminate_entry : ℕ → List Bytes → Entry → Entry
unfolding terminate
terminate_entry sig except e =
    if contains except e.command.id then e else record e { handle = (terminate sig e.handle).0 }

unfoldable pub terminate_all : ℕ → List Bytes → Dict Bytes Entry → Dict Bytes Entry
unfolding terminate_entry
terminate_all sig except [] = []
terminate_all sig except ((id, e) ∷ jobs) =
    (id, terminate_entry sig except e) ∷ terminate_all sig except jobs

-- Shutdown. `meanwhile` is what the other threads do in the five seconds between the signals.
unfoldable pub shutdown : List Bytes → (Running → Running) → Running → Running
unfolding close terminate_all
shutdown except meanwhile m =
    let asked = record m { queue = close m.queue; jobs = terminate_all sigterm except m.jobs } in
    let later = meanwhile asked in record later { jobs = terminate_all sigkill except later.jobs }

-- Kill: the error of the signal is not looked at; `false` is "not found".
unfoldable pub kill : Bytes → Running → Running × Bool
unfolding signal
kill id m = elim (lookup id m.jobs) [
  | none ↦ (m, false)
  | some e ↦ (
    record m { jobs = insert id (record e { handle = (signal sigterm e.handle).0 }) m.jobs },
    true,
  )
]

abbrev terminated : ℕ → List Bytes → Option Entry → Option Entry
terminated sig except none = none
terminated sig except (some e) = some (terminate_entry sig except e)

lookup-terminate_all :
    (id : Bytes) (sig : ℕ) (except : List Bytes) (jobs : Dict Bytes Entry)
    → lookup id (terminate_all sig except jobs) ≡ terminated sig except (lookup id jobs)
unfolding terminate_all
lookup-terminate_all id sig except [] = refl
lookup-terminate_all id sig except ((j, e) ∷ jobs) = elim (Bool-cases (j == id)) [
  | inl x ↦ rw x refl
  | inr x ↦ rw x (lookup-terminate_all id sig except jobs)
]

-- A job that is not one of the exceptions does not run again, however its present run ends.
terminate_entry-stop :
    (sig runs : ℕ) (except : List Bytes) (e : Entry) (state : JobState)
    → contains except (terminate_entry sig except e).command.id ≡ false
    → after_run
        (terminate_entry sig except e).command
        runs
        (attempt_of state (terminate_entry sig except e).handle)
      ≡ stop
unfolding terminate_entry
terminate_entry-stop sig runs except e state h = elim (Bool-cases (contains except e.command.id)) [
  | inl x ↦ absurd (ground (arith, x, rw (terminate_entry, x) at h))
  | inr x ↦ rw (terminate_entry, x) (terminate-stop e.command runs sig state e.handle)
]

terminated-some :
    (sig : ℕ) (except : List Bytes) (o : Option Entry) (e : Entry)
    → terminated sig except o ≡ some e
    → (before : Entry) × (terminate_entry sig except before ≡ e)
terminated-some sig except none e h = absurd (ground arith)
terminated-some sig except (some before) e h = (before, ground arith)

-- A run after which the loop stops is its last: the run that the job is in, or the one that comes
-- after the delay of its back-off.
begins-stop :
    (cmd : Command) (runs : ℕ) (a : Attempt) (later : List Attempt)
    → after_run cmd runs a ≡ stop
    → (begins in_run cmd runs (a ∷ later) ≡ some 0)
      × (begins in_back_off cmd runs (a ∷ later) ≡ some 1)
unfolding begins runs_from
begins-stop cmd runs a later h = (rw (begins, h) refl, rw (begins, runs_from, h) refl)

-- If no other thread opens the queue again, then after Shutdown the queue refuses every command, and
-- a job in the table that is not one of the exceptions begins no run any more if it is in a run or
-- waits for its next one as a recurring or restarted job, and exactly one more if it is in the delay
-- of its back-off, if nothing else changes its handle: however that run ends, whatever its command
-- says of restarts, and whatever jobs came and went meanwhile.
pub shutdown-stop :
    (except : List Bytes) (meanwhile : Running → Running) (m : Running) (id : Bytes) (e : Entry)
    (runs : ℕ) (state : JobState) (later : List Attempt) (job : Command)
    → ((r : Running) → r.queue.closed ≡ true → (meanwhile r).queue.closed ≡ true)
    → lookup id (shutdown except meanwhile m).jobs ≡ some e
    → contains except e.command.id ≡ false
    → (push queue_of (shutdown except meanwhile m).queue job ≡ none)
      × (begins in_run e.command runs (attempt_of state e.handle ∷ later) ≡ some 0)
      × (begins in_back_off e.command runs (attempt_of state e.handle ∷ later) ≡ some 1)
unfolding shutdown close push
shutdown-stop except meanwhile m id e runs state later job stays found other =
    let asked = record m { queue = close m.queue; jobs = terminate_all sigterm except m.jobs } in
    let waited = meanwhile asked in
    let closed = stays asked refl in
    let same = sym (lookup-terminate_all id sigkill except waited.jobs) ∙ found in
    let (before, made) = terminated-some sigkill except (lookup id waited.jobs) e same in
    let Stops : Entry → Type 0 = λ e.
      contains except e.command.id ≡ false
      → after_run e.command runs (attempt_of state e.handle) ≡ stop in
    let stops = subst Stops made (terminate_entry-stop sigkill runs except before state) other in
    (
      rw (push, closed) refl,
      (begins-stop e.command runs (attempt_of state e.handle) later stops).0,
      (begins-stop e.command runs (attempt_of state e.handle) later stops).1,
    )
