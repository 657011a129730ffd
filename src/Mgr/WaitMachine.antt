-- ===== src/Mgr/WaitMachine.antt =====
-- base/mgr/waitmachine.go: keys that are released once or more, and waits for them. A wait is read
-- at one moment: `none` where it blocks on a key that is not released.
pub mod Released
use debug_bootstrap.Prelude.{
  Bool, true, false, Option, none, some, List, [], ◌∷◌, ◌&&◌, Bytes, bytes_equal, if◌then◌else◌,
}
use debug_bootstrap.Prelude.Dict.{Dict, lookup, insert}

-- type stateW struct: `closed` says whether its channel is closed.
pub record Key : Type 0 where
  pub closed : Bool
  pub s : Bool

abbrev pub Machine : Type 0
Machine = Dict Bytes Key

abbrev pub new_key : Key
new_key = record { closed = false; s = false }

add_keys : Machine → List Bytes → Machine
add_keys m [] = m
add_keys m (k ∷ ks) = add_keys (insert k new_key m) ks

unfoldable pub new_state_machine : List Bytes → Machine
unfolding add_keys
new_state_machine keys = add_keys [] keys

-- The loop of Wait: a key that is not there is passed over.
wait_key : Bool → Option Key → Option Bool
wait_key r none = some r
wait_key r (some w) = if w.closed then some (r && w.s) else none

unfoldable pub wait_from : Bool → List Bytes → Machine → Option Bool
unfolding wait_key
wait_from r [] m = some r
wait_from r (k ∷ ks) m = elim (wait_key r (lookup k m)) [
  | none ↦ none
  | some r' ↦ wait_from r' ks m
]

unfoldable pub wait : List Bytes → Machine → Option Bool
unfolding wait_from
wait keys m = wait_from true keys m

-- WaitAll waits for one key of the machine after the other: has it returned?
unfoldable pub wait_each : Machine → Machine → Bool
wait_each [] m = true
wait_each ((k, w) ∷ rest) m = elim (wait (k ∷ []) m) [ none ↦ false | some r ↦ wait_each rest m ]

unfoldable pub wait_all : Machine → Bool
unfolding wait_each
wait_all m = wait_each m m

-- Release: the state is set also where the channel was closed before. The second part is false for
-- the error "key not found".
release_key : Bytes → Bool → Machine → Option Key → Machine × Bool
release_key k state m none = (m, false)
release_key k state m (some w) = (insert k (record { closed = true; s = state }) m, true)

unfoldable pub release : Bytes → Bool → Machine → Machine × Bool
unfolding release_key
release k state m = release_key k state m (lookup k m)
