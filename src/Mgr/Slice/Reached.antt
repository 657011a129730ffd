-- ===== src/Mgr/Slice/Reached.antt =====
-- The states that the services of a slice reach (RunSlice in base/mgr/pm.go), and what they release
-- on the way.
use mathlib.Core.List.{Mem}
use mathlib.Core.Option.{some-injective}
use debug_bootstrap.Prelude.{
  ◌≡◌, refl, Bool, true, false, Option, none, some, List, [], ◌∷◌, ◌||◌, Bytes, bytes_equal, ◌==◌,
  if◌then◌else◌, contains, Bool-cases, Option-cases, inl, inr, subst, sym, ◌∙◌, arith,
}
use debug_bootstrap.Prelude.Dict.{lookup, insert, lookup-insert}
use debug_bootstrap.Settings.Startup.{Startup}
use debug_bootstrap.Mgr.WaitMachine.{Key, Machine, new_state_machine, wait, release}
use debug_bootstrap.Mgr.WaitMachine.Released.{
  passable, released, is_known, lookup-release, known-new_state_machine,
}
use debug_bootstrap.Mgr.Slice.{
  Status, Slice, waiting, skipped, refused, running, not_started, status_of, status_or_waiting,
  settle, keys_of, skip_unmet, launch, go_past, advance, hook_fires,
}

-- The states of a slice: behind the loop over it, then any service that waits goes past its Wait
-- where it can, and hooks of services that run fire, in any order and any number of times. The list
-- has the keys of those whose hook fired. In the program a goroutine may go on before the loop has
-- skipped a later service; it does not read that service's key then, so the loop can come first.
pub data Reach (met : Startup → Bool) (slice : List Startup) : List Bytes → Slice → Type 0 where
  launched : Reach met slice [] (launch met slice)
  goes :
      {fired : List Bytes} {sl sl' : Slice} (s : Startup) (runs : Bool)
      → Reach met slice fired sl
      → Mem s slice
      → status_of sl s.key ≡ waiting
      → advance s runs sl ≡ some sl'
      → Reach met slice fired sl'
  fires :
      {fired : List Bytes} {sl : Slice} (k : Bytes) (b : Bool)
      → Reach met slice fired sl
      → status_of sl k ≡ running
      → Reach met slice (k ∷ fired) (hook_fires k b sl)

-- A service that was given up
abbrev pub is_given_up : Status → Bool
is_given_up waiting = false
is_given_up skipped = true
is_given_up refused = true
is_given_up running = false
is_given_up not_started = true

-- The keys of the machine are those of the slice, and a service that was given up, or whose hook
-- fired, has released its key.
pub record IsReleased (slice : List Startup) (fired : List Bytes) (sl : Slice) : Type 0 where
  pub known :
      (k : Bytes) → is_known (lookup k sl.machine) ≡ true → contains (keys_of slice) k ≡ true
  pub settled :
      (k : Bytes)
      → (is_given_up (status_of sl k) || contains fired k) ≡ true
      → passable (lookup k sl.machine) ≡ true

known-released : (b : Bool) (o : Option Key) → is_known (released b o) ≡ is_known o
known-released b none = refl
known-released b (some w) = refl

passable-released : (b : Bool) (o : Option Key) → passable (released b o) ≡ true
passable-released b none = refl
passable-released b (some w) = refl

known-release :
    (k j : Bytes) (b : Bool) (m : Machine)
    → is_known (lookup j (release k b m).0) ≡ is_known (lookup j m)
known-release k j b m = elim (Bool-cases (k == j)) [
  | inl e ↦ rw ((lookup-release k j b m).0, e) (known-released b (lookup j m))
  | inr e ↦ rw ((lookup-release k j b m).0, e) refl
]

status_of-insert :
    (k j : Bytes) (st : Status) (sl : Slice) (m : Machine)
    → status_of (record { machine = m; status = insert k st sl.status }) j
      ≡ (if k == j then st else status_of sl j)
unfolding status_of status_or_waiting
status_of-insert k j st sl m = elim (Bool-cases (k == j)) [
  | inl e ↦ rw (lookup-insert k j st sl.status, e) refl
  | inr e ↦ rw (lookup-insert k j st sl.status, e) refl
]

-- One service releases its key; another is as it was.
settle-IsReleased :
    (slice : List Startup) (fired fired' : List Bytes) (k : Bytes) (b : Bool) (st : Status)
    (sl : Slice)
    → ((j : Bytes) → (k == j) ≡ false → contains fired' j ≡ contains fired j)
    → IsReleased slice fired sl
    → IsReleased slice fired' (settle k b st sl)
unfolding settle
settle-IsReleased slice fired fired' k b st sl same v = record {
  known = λ j h. v.known j (sym (known-release k j b sl.machine) ∙ h);
  settled = λ j h. elim (Bool-cases (k == j)) [
    | inl e ↦
        rw ((lookup-release k j b sl.machine).0, e) (passable-released b (lookup j sl.machine))
    | inr e ↦
        let old : status_of (settle k b st sl) j ≡ status_of sl j =
          status_of-insert k j st sl (release k b sl.machine).0 ∙ rw e refl in
        rw ((lookup-release k j b sl.machine).0, e) (v.settled j (rw (sym old, sym (same j e)) h))
  ];
}

skip_unmet-IsReleased :
    (slice : List Startup) (met : Startup → Bool) (rest : List Startup) (sl : Slice)
    → IsReleased slice [] sl
    → IsReleased slice [] (skip_unmet met rest sl)
unfolding skip_unmet
skip_unmet-IsReleased slice met [] sl v = v
skip_unmet-IsReleased slice met (s ∷ rest) sl v = elim (Bool-cases (met s)) [
  | inl e ↦ rw (skip_unmet, e) (skip_unmet-IsReleased slice met rest sl v)
  | inr e ↦
      rw (skip_unmet, e)
        (skip_unmet-IsReleased slice met rest (settle s.key false skipped sl)
          (settle-IsReleased slice [] [] s.key false skipped sl (λ j h. refl) v))
]

launch-IsReleased :
    (met : Startup → Bool) (slice : List Startup) → IsReleased slice [] (launch met slice)
unfolding launch status_of status_or_waiting
launch-IsReleased met slice =
    skip_unmet-IsReleased slice met slice
      (record { machine = new_state_machine (keys_of slice); status = [] })
      (record {
        known = λ k h. sym (known-new_state_machine k (keys_of slice)) ∙ h;
        settled = λ k h. absurd cc;
      })

go_past-IsReleased :
    (slice : List Startup) (fired : List Bytes) (k : Bytes) (runs can_run : Bool) (sl : Slice)
    → status_of sl k ≡ waiting
    → IsReleased slice fired sl
    → IsReleased slice fired (go_past k runs sl can_run)
unfolding go_past
go_past-IsReleased slice fired k runs false sl w v =
    settle-IsReleased slice fired fired k false refused sl (λ j h. refl) v
go_past-IsReleased slice fired k false true sl w v =
    settle-IsReleased slice fired fired k false not_started sl (λ j h. refl) v
go_past-IsReleased slice fired k true true sl w v = record {
  known = v.known;
  settled = λ j h. elim (Bool-cases (k == j)) [
    | inl e ↦ v.settled j (ground (arith, h, status_of-insert k j running sl sl.machine, e))
    | inr e ↦ v.settled j (ground (arith, h, status_of-insert k j running sl sl.machine, e))
  ];
}

advance-IsReleased :
    (slice : List Startup) (fired : List Bytes) (s : Startup) (runs : Bool) (sl sl' : Slice)
    → status_of sl s.key ≡ waiting
    → advance s runs sl ≡ some sl'
    → IsReleased slice fired sl
    → IsReleased slice fired sl'
unfolding advance
advance-IsReleased slice fired s runs sl sl' w e v = elim (Option-cases (wait s.after sl.machine)) [
  | inl x ↦ let blocked : none ≡ some sl' = rw (advance, x) at e in absurd cc
  | inr (can_run, x) ↦
      let past : some (go_past s.key runs sl can_run) ≡ some sl' = rw (advance, x) at e in
      subst (IsReleased slice fired) (some-injective _ _ past)
        (go_past-IsReleased slice fired s.key runs can_run sl w v)
]

pub Reach-IsReleased :
    {met : Startup → Bool} {slice : List Startup} {fired : List Bytes} {sl : Slice}
    → Reach met slice fired sl
    → IsReleased slice fired sl
unfolding hook_fires
Reach-IsReleased {met} {slice} launched = launch-IsReleased met slice
Reach-IsReleased {met} {slice} (goes {fired} {sl} {sl'} s runs r named w e) =
    advance-IsReleased slice fired s runs sl sl' w e (Reach-IsReleased r)
Reach-IsReleased {met} {slice} (fires {fired} {sl} k b r w) =
    settle-IsReleased slice fired (k ∷ fired) k b running sl (λ j h. rw h refl) (Reach-IsReleased r)
