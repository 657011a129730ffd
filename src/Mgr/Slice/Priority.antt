-- ===== src/Mgr/Slice/Priority.antt =====
-- Services of a slice (RunSlice in base/mgr/pm.go) that are named like a priority.
use debug_bootstrap.Prelude.{
  ℕ, suc, ◌≡◌, refl, Bool, false, none, some, [], ◌∷◌, Bytes, bytes_equal, ap, ◌∙◌,
}
use debug_bootstrap.Prelude.Int.{ℤ, pos, ◌+ℤ◌}
use debug_bootstrap.Prelude.Dict.{Dict, lookup}
use debug_bootstrap.Settings.Startup.{
  Startup, priority, weight, weighs, weigh_after, weigh_all, weigh_one, plus,
}
use debug_bootstrap.Mgr.WaitMachine.{Key, wait}
use debug_bootstrap.Mgr.WaitMachine.Released.{wait-passable}
use debug_bootstrap.Mgr.Slice.{Slice, advance}

-- A service that has the name of a priority and comes after that priority only is not found to be
-- cyclic: it has a weight. But it waits for itself: as long as its key is not released, its goroutine
-- does not go past its Wait.
pub advance-self_named :
    (services : Dict Bytes Startup) (fuel : ℕ) (s : Startup) (x : ℤ) (w : Key) (runs : Bool)
    (sl : Slice)
    → priority s.key ≡ some x
    → s.after ≡ s.key ∷ []
    → lookup s.key sl.machine ≡ some w
    → w.closed ≡ false
    → (weight (suc fuel) services [] s ≡ weighs (x +ℤ pos 0)) × (advance s runs sl ≡ none)
unfolding weight advance weigh_after weigh_all weigh_one plus
advance-self_named services fuel s x w runs sl p a found shut =
    let blocked : wait s.after sl.machine ≡ none =
      ap (λ ks. wait ks sl.machine) a
      ∙ wait-passable (s.key ∷ []) sl.machine
      ∙ rw (found, shut) refl in
    (
      ap (weigh_after (weight fuel services (s.key ∷ [])) services) a ∙ rw p refl,
      rw (blocked, advance) refl,
    )
