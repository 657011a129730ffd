-- ===== src/Mgr/Queue/Trace.antt =====
-- Runs of calls on the queue of base/mgr/queue.go, and what they mean for one queue name.
use debug_bootstrap.Prelude.{
  Option, none, some, List, [], ◌∷◌, ◌++◌, Bytes, if◌then◌else◌, ◌==◌, take, drop, bytes_equal,
}
use debug_bootstrap.Mgr.Queue.{Queue, push, notify}

pub data Op (J : Type 0) : Type 0 where
  pushes notifies : J → Op J

-- The map has an entry for a name exactly while jobs of that name wait or run.
abbrev pub entry : {J : Type 0} → List J → Option (List J)
entry [] = none
entry (j ∷ js) = some (j ∷ js)

module _ {J : Type 0} (name : J → Bytes) where
  -- A run of calls: the queue, and all that was sent, in order. A push on a closed queue fails.
  unfoldable pub after_push : Queue J × List J → Option (Queue J × List J) → Queue J × List J
  after_push s none = s
  after_push s (some (q, out)) = (q, s.1 ++ out)

  unfoldable pub step : Queue J × List J → Op J → Queue J × List J
  unfolding after_push
  step s (pushes j) = after_push s (push name s.0 j)
  step s (notifies j) = let (q, out) = notify name s.0 j in (q, s.1 ++ out)

  unfoldable pub run : Queue J × List J → List (Op J) → Queue J × List J
  run s [] = s
  run s (o ∷ os) = run (step s o) os

  -- The jobs of one name.
  abbrev pub only : Bytes → List J → List J
  only n [] = []
  only n (j ∷ js) = if name j == n then j ∷ only n js else only n js

  -- What the calls mean for one name: a plain list, pushed at the back, served at the front.
  abbrev pub waiting_step : Bytes → List J → Op J → List J
  waiting_step n xs (pushes j) = if name j == n then xs ++ j ∷ [] else xs
  waiting_step n xs (notifies j) = if name j == n then drop 1 xs else xs

  abbrev pub waiting : Bytes → List J → List (Op J) → List J
  waiting n xs [] = xs
  waiting n xs (o ∷ os) = waiting n (waiting_step n xs o) os

  abbrev pub served_step : Bytes → List J → Op J → List J
  served_step n xs (pushes j) = []
  served_step n xs (notifies j) = if name j == n then take 1 xs else []

  abbrev pub served : Bytes → List J → List (Op J) → List J
  served n xs [] = []
  served n xs (o ∷ os) = served_step n xs o ++ served n (waiting_step n xs o) os

  abbrev pub pushed_step : Bytes → Op J → List J
  pushed_step n (pushes j) = if name j == n then j ∷ [] else []
  pushed_step n (notifies j) = []

  abbrev pub pushed : Bytes → List (Op J) → List J
  pushed n [] = []
  pushed n (o ∷ os) = pushed_step n o ++ pushed n os
