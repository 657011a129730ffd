-- ===== src/Mgr/Manager/Registered.antt =====
-- Which jobs stand in the table of base/mgr/pm.go.
use debug_bootstrap.Prelude.{
  ◌≡◌, refl, sym, subst, true, false, none, some, [], Bytes, bytes_equal, beq_refl, ◌==◌, ◌∙◌,
}
use debug_bootstrap.Prelude.Dict.{lookup, insert, lookup-insert}
use debug_bootstrap.Pm.Command.{Command}
use debug_bootstrap.Mgr.Queue.{push}
use debug_bootstrap.Mgr.Manager.{
  Manager, duplicate_id, closed_queue, with_id, run_factory, enter, schedule, job_of,
}

-- A manager that has registered a job.
abbrev registered : Manager → Command → Manager
registered m cmd = record m { jobs = insert cmd.id cmd m.jobs }

run_factory-refused :
    (uuid : Bytes) (m : Manager) (cmd : Command)
    → (cmd.id == []) ≡ false
    → m.queue.closed ≡ true
    → lookup cmd.id m.jobs ≡ none
    → run_factory (λ c. c) uuid m cmd ≡ (registered m cmd, closed_queue)
unfolding run_factory with_id enter schedule push
run_factory-refused uuid m cmd named closed new = rw (named, new, closed, push) refl

run_factory-duplicate :
    (uuid : Bytes) (m : Manager) (cmd old : Command)
    → (cmd.id == []) ≡ false
    → lookup cmd.id m.jobs ≡ some old
    → run_factory (λ c. c) uuid m cmd ≡ (m, duplicate_id)
unfolding run_factory with_id enter
run_factory-duplicate uuid m cmd old named found = rw (named, found) refl

-- On a closed queue a command with a new id of its own is refused; its job stays in the table all
-- the same, so that a second call with the same command is refused as a duplicate.
pub run_factory-closed :
    (uuid other : Bytes) (m : Manager) (cmd : Command)
    → (cmd.id == []) ≡ false
    → m.queue.closed ≡ true
    → lookup cmd.id m.jobs ≡ none
    → let (m', first) = run_factory (λ c. c) uuid m cmd in
      (first ≡ closed_queue)
      × (job_of m' cmd.id ≡ some cmd)
      × (run_factory (λ c. c) other m' cmd ≡ (m', duplicate_id))
unfolding job_of
run_factory-closed uuid other m cmd named closed new =
    let stands : lookup cmd.id (insert cmd.id cmd m.jobs) ≡ some cmd =
      lookup-insert cmd.id cmd.id cmd m.jobs ∙ rw (beq_refl cmd.id) refl in
    subst
      (λ r.
        (r.1 ≡ closed_queue)
        × (job_of r.0 cmd.id ≡ some cmd)
        × (run_factory (λ c. c) other r.0 cmd ≡ (r.0, duplicate_id)))
      (sym (run_factory-refused uuid m cmd named closed new))
      (refl, stands, run_factory-duplicate other (registered m cmd) cmd cmd named stands)
