-- ===== src/Mgr/Queue.antt =====
-- base/mgr/queue.go: the queues of jobs, one for each queue name. A send on the channel `q.ch`
-- is an output: the list of the jobs that the call sends, at most one. When the send blocks is the
-- business of Manager.Concurrent. `list.List` is the sequence of its values, the front first.
pub mod Trace
pub mod Holds
pub mod Serial
use debug_bootstrap.Prelude.{
  Bool, true, false, Option, none, some, List, [], ◌∷◌, ◌++◌, Bytes, if◌then◌else◌, ◌==◌,
  bytes_equal,
}
use debug_bootstrap.Prelude.Dict.{Dict, lookup, insert, remove}

-- type Queue struct, over the type of jobs
pub record Queue (J : Type 0) : Type 0 where
  pub queues : Dict Bytes (List J)
  pub closed : Bool

unfoldable pub init : {J : Type 0} → Queue J
init = record { queues = []; closed = false }

unfoldable pub close : {J : Type 0} → Queue J → Queue J
close q = record q { closed = true }

-- q.queues[name], or the list that is made where there is none
unfoldable pub list_or_new : {J : Type 0} → Option (List J) → List J
list_or_new none = []
list_or_new (some jobs) = jobs

-- The first job of a queue is sent at once; one behind it waits for a Notify.
unfoldable pub first_only : {J : Type 0} → J → List J → List J
first_only job [] = job ∷ []
first_only job (front ∷ rest) = []

-- `name` is job.Command().Queue. `none` is the error "closed queue".
module _ {J : Type 0} (name : J → Bytes) where
  unfoldable pub push : Queue J → J → Option (Queue J × List J)
  unfolding list_or_new first_only
  push q job =
      if q.closed
      then none
      else if name job == []
      then some (q, job ∷ [])
      else let jobs = list_or_new (lookup (name job) q.queues) in
        some
          (record q { queues = insert (name job) (jobs ++ job ∷ []) q.queues }, first_only job jobs)

  -- The front of the list is taken out, and the next one sent.
  unfoldable pub after_front : Queue J → J → List J → Queue J × List J
  after_front q job [] = (record q { queues = remove (name job) q.queues }, [])
  after_front q job (next ∷ rest) =
      (record q { queues = insert (name job) (next ∷ rest) q.queues }, next ∷ [])

  unfoldable pub drop_front : Queue J → J → Option (List J) → Queue J × List J
  unfolding after_front
  drop_front q job none = (q, [])
  drop_front q job (some []) = (q, [])
  drop_front q job (some (front ∷ rest)) = after_front q job rest

  unfoldable pub notify : Queue J → J → Queue J × List J
  unfolding drop_front
  notify q job = if q.closed then (q, []) else drop_front q job (lookup (name job) q.queues)
