-- ===== src/Mgr/Slice/Progress.antt =====
-- The services of a slice (RunSlice in base/mgr/pm.go) when none of them can move.
use mathlib.Core.WellFounded.{Acc}
use debug_bootstrap.Prelude.{
  Names, here, there, All, ◌≡◌, refl, sym, Bool, true, false, none, some, List, [], ◌∷◌, ◌==◌,
  Bytes, bytes_equal, bytes_eq_iff, contains, arith, inl, inr, ℕ, Option-cases, Bool-cases,
}
use debug_bootstrap.Prelude.Int.{ℤ}
use debug_bootstrap.Prelude.Dict.{Dict, lookup}
use debug_bootstrap.Settings.Startup.{Startup, priority, weight, weighs}
use debug_bootstrap.Settings.Startup.Acyclic.{Depends, weighs-Acc}
use debug_bootstrap.Mgr.WaitMachine.{Machine, wait_all}
use debug_bootstrap.Mgr.WaitMachine.Released.{
  wait-passable, all_passable, passable, wait_all-closed,
}
use debug_bootstrap.Mgr.Slice.{
  Status, Slice, waiting, skipped, refused, running, not_started, keys_of, status_of, advance,
}
use debug_bootstrap.Mgr.Slice.Reached.{Reach, IsReleased, Reach-IsReleased}

-- The service stands in the table under its key, has a weight, and not the name of a priority.
pub record IsWeighed (services : Dict Bytes Startup) (fuel : ℕ) (s : Startup) : Type 0 where
  pub found : lookup s.key services ≡ some s
  pub weighed : (n : ℤ) × (weight fuel services [] s ≡ weighs n)
  pub no_priority : priority s.key ≡ none

-- A service cannot move: if it waits, its Wait blocks; if it runs, a hook of it fired.
abbrev pub RestsAs : List Bytes → Slice → Startup → Status → Type 0
RestsAs fired sl s waiting = advance s true sl ≡ none
RestsAs fired sl s skipped = Unit
RestsAs fired sl s refused = Unit
RestsAs fired sl s running = contains fired s.key ≡ true
RestsAs fired sl s not_started = Unit

abbrev pub Rests : List Bytes → Slice → Startup → Type 0
Rests fired sl s = RestsAs fired sl s (status_of sl s.key)

-- If every named key can be passed, a wait goes through.
passable-Names :
    (names : List Bytes) (m : Machine)
    → ((a : Bytes) → Names a names → passable (lookup a m) ≡ true)
    → all_passable names m ≡ true
passable-Names [] m h = refl
passable-Names (a ∷ names) m h =
    ground (arith, h a here, passable-Names names m (λ b i. h b (there i)))

advance_blocked :
    (s : Startup) (sl : Slice) → advance s true sl ≡ none → all_passable s.after sl.machine ≡ false
unfolding advance
advance_blocked s sl e = ground (arith, wait-passable s.after sl.machine)

-- What holds of each service of a slice holds of the one with a given key.
at_key :
    (P : Startup → Type 0) (slice : List Startup) (k : Bytes)
    → All P slice
    → contains (keys_of slice) k ≡ true
    → (s : Startup) × (s.key ≡ k) × P s
unfolding keys_of
at_key P [] k h c = absurd cc
at_key P (s ∷ rest) k (p, h) c = elim (Bool-cases (s.key == k)) [
  | inl e ↦ (s, (bytes_eq_iff s.key k).0 e, p)
  | inr e ↦ at_key P rest k h (ground (arith, c, e))
]

-- A service that rests, and whose names can all be passed, has released its key.
Rests-passable :
    (slice : List Startup) (fired : List Bytes) (sl : Slice) (s : Startup)
    → IsReleased slice fired sl
    → all_passable s.after sl.machine ≡ true
    → (st : Status) → status_of sl s.key ≡ st
    → RestsAs fired sl s st
    → passable (lookup s.key sl.machine) ≡ true
Rests-passable slice fired sl s v passes waiting e blocked = cc (advance_blocked s sl blocked)
Rests-passable slice fired sl s v passes skipped e rests = v.settled s.key (rw e refl)
Rests-passable slice fired sl s v passes refused e rests = v.settled s.key (rw e refl)
Rests-passable slice fired sl s v passes running e rests = v.settled s.key (rw (e, rests) refl)
Rests-passable slice fired sl s v passes not_started e rests = v.settled s.key (rw e refl)

abbrev IsPlaced : Dict Bytes Startup → ℕ → List Bytes → Slice → Startup → Type 0
IsPlaced services fuel fired sl s = IsWeighed services fuel s × Rests fired sl s

passable-Acc :
    (services : Dict Bytes Startup) (fuel : ℕ) (slice : List Startup) (fired : List Bytes)
    (sl : Slice)
    → IsReleased slice fired sl
    → All (IsPlaced services fuel fired sl) slice
    → (k : Bytes) → Acc (Depends services) k
    → passable (lookup k sl.machine) ≡ true
passable-Acc services fuel slice fired sl v all k (Acc.intro _ below) =
    elim (Option-cases (lookup k sl.machine)) [
      | inl missing ↦ rw missing refl
      | inr (w, e) ↦
          let (s, same, placed) =
            at_key (IsPlaced services fuel fired sl) slice k all (v.known k (rw e refl)) in
          let passes : (a : Bytes) → Names a s.after → passable (lookup a sl.machine) ≡ true =
            λ a i. elim (Option-cases (lookup a sl.machine)) [
              | inl missing ↦ rw missing refl
              | inr (w', e') ↦
                  let (s', same', placed') =
                    at_key (IsPlaced services fuel fired sl) slice a all (v.known a (rw e' refl)) in
                  passable-Acc services fuel slice fired sl v all a (
                    below a (record {
                      service = s;
                      found = rw (sym same) placed.0.found;
                      named = i;
                      no_priority = rw (sym same') placed'.0.no_priority;
                    }))
            ] in
          rw (sym same) (
            Rests-passable slice fired sl s v (passable-Names s.after sl.machine passes)
              (status_of sl s.key) refl placed.1)
    ]

IsPlaced-each :
    (services : Dict Bytes Startup) (fuel : ℕ) (fired : List Bytes) (sl : Slice)
    (slice : List Startup)
    → All (IsWeighed services fuel) slice
    → All (Rests fired sl) slice
    → All (IsPlaced services fuel fired sl) slice
IsPlaced-each services fuel fired sl [] v r = tt
IsPlaced-each services fuel fired sl (s ∷ rest) v r =
    ((v.0, r.0), IsPlaced-each services fuel fired sl rest v.1 r.1)

-- RunSlice comes to its end. Whatever state the services of a slice reach, with any of them skipped
-- and any answers of Run: if none of them can move there, because each one that still waits is
-- blocked and a hook of each one that runs has fired, then all keys are released. So no service waits
-- for ever for one that waits, was skipped, refused or not started, if each service of the slice
-- stands in the table under its key, has a weight there, with whatever fuel, and is not named like a
-- priority.
pub wait_all_of_rest :
    (services : Dict Bytes Startup) (fuel : ℕ) (met : Startup → Bool) (slice : List Startup)
    (fired : List Bytes) (sl : Slice)
    → All (IsWeighed services fuel) slice
    → Reach met slice fired sl
    → All (Rests fired sl) slice
    → wait_all sl.machine ≡ true
wait_all_of_rest services fuel met slice fired sl weighed reached rests =
    let v = Reach-IsReleased reached in
    let placed = IsPlaced-each services fuel fired sl slice weighed rests in
    wait_all-closed sl.machine (λ k w e.
      let (s, same, at) =
        at_key (IsPlaced services fuel fired sl) slice k placed (v.known k (rw e refl)) in
      let (n, weighs_n) = at.0.weighed in
      let found : lookup k services ≡ some s = rw (sym same) at.0.found in
      let all_of =
        passable-Acc services fuel slice fired sl v placed k
          (weighs-Acc fuel services [] k s n found weighs_n) in
      rw e at all_of)
