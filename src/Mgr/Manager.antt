-- ===== src/Mgr/Manager.antt =====
-- base/mgr/pm.go: the table of jobs, and how a command becomes a job in it.
pub mod Concurrent
pub mod Registered
pub mod Shutdown
use debug_bootstrap.Prelude.{
  Bool, true, false, Option, none, some, List, [], ◌∷◌, Bytes, bytes_equal, if◌then◌else◌, ◌==◌,
}
use debug_bootstrap.Prelude.Dict.{Dict, lookup, insert, remove}
use debug_bootstrap.Pm.Command.{Command}
use debug_bootstrap.Mgr.Queue.{Queue, push, notify}

-- The package's variables `jobs` and `queue`. A job stands in the table by its command.
pub record Manager : Type 0 where
  pub jobs : Dict Bytes Command
  pub queue : Queue Command

-- What RunFactory returns: the job that it sent to the loop or left waiting, or an error.
pub data Outcome : Type 0 where
  sent queued : Command → Outcome
  duplicate_id closed_queue : Outcome

abbrev pub queue_of : Command → Bytes
queue_of c = c.queue

-- An empty id is replaced by a new one, which the caller draws (`uuid.New()`).
unfoldable pub with_id : Bytes → Command → Command
with_id uuid cmd = if cmd.id == [] then record cmd { id = uuid } else cmd

unfoldable pub outcome_of : Command → List Command → Outcome
outcome_of job [] = queued job
outcome_of job (j ∷ js) = sent job

-- On a closed queue the job stays in the table.
unfoldable pub schedule :
    Manager → Command → Option (Queue Command × List Command) → Manager × Outcome
schedule m job none = (m, closed_queue)
schedule m job (some (q, out)) = (record m { queue = q }, outcome_of job out)

unfoldable pub enter : Manager → Command → Option Command → Manager × Outcome
unfolding schedule outcome_of
enter m job (some old) = (m, duplicate_id)
enter m job none =
    let m' = record m { jobs = insert job.id job m.jobs } in
    schedule m' job (push queue_of m.queue job)

-- RunFactory. `pre` is what the PreHandlers make of the command, which they get by pointer.
unfoldable pub run_factory : (Command → Command) → Bytes → Manager → Command → Manager × Outcome
unfolding enter with_id
run_factory pre uuid m cmd = let job = pre (with_id uuid cmd) in enter m job (lookup job.id m.jobs)

-- cleanUp: the job leaves the table, then the queue is told; the jobs that this sends are returned.
unfoldable pub clean_up : Manager → Command → Manager × List Command
clean_up m job =
    let (q, out) = notify queue_of m.queue job in
    (record m { jobs = remove job.id m.jobs; queue = q }, out)

-- JobOf
unfoldable pub job_of : Manager → Bytes → Option Command
job_of m id = lookup id m.jobs
