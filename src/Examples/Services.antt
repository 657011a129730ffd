-- ===== src/Examples/Services.antt =====
-- The startup services of base/settings and the slices that base/mgr/pm.go runs.
use mathlib.Core.List.{mem-cons_self, mem-cons_of_mem}
use debug_bootstrap.Prelude.{
  All, not, true, Bool, suc, ◌≡◌, ◌≢◌, refl, true, false, none, some, List, [], ◌∷◌, ◌++◌, Bytes,
  codes, length, arith, inl, inr, bytes_equal, bytes_eq_iff, ◌==◌, Bool-cases,
}
use debug_bootstrap.Prelude.Int.{ℤ, pos, negsuc, ◌+ℤ◌}
use debug_bootstrap.Prelude.Dict.{Dict, lookup}
use debug_bootstrap.Settings.Startup.{
  Startup, weight, weigh_after, weigh_all, priority, weighs, out_of_fuel,
}
use debug_bootstrap.Settings.Startup.Fuel.{IsPrepared, weight_total}
use debug_bootstrap.Settings.Startup.Acyclic.{Needs, weighs-not_Needs_self}
use debug_bootstrap.Settings.Tree.{Weighted, is_end, slice}
use debug_bootstrap.Settings.Tree.Slices.{slice-append}
use debug_bootstrap.Mgr.WaitMachine.{wait, wait_all, release, new_state_machine}
use debug_bootstrap.Mgr.Slice.{
  Slice, skipped, refused, running, launch, status_of, advance, hook_fires,
}
use debug_bootstrap.Mgr.Slice.Reached.{Reach, launched, goes, fires}
use debug_bootstrap.Mgr.Slice.Progress.{IsWeighed, Rests, wait_all_of_rest}

abbrev sample : Bytes → List Bytes → Startup
sample key after = record {
  after = after;
  running_delay = pos 0;
  running_match = [];
  recurring_period = pos 0;
  max_restart = pos 0;
  protected = false;
  name = codes "core.system";
  tags = [];
  arguments = none;
  condition = [];
  key = key;
}

abbrev web : Startup
web = sample (codes "web") (codes "net" ∷ [])

abbrev services : Dict Bytes Startup
services = (codes "web", web) ∷ []

services-IsPrepared : IsPrepared services
services-IsPrepared k s e = elim (Bool-cases (codes "web" == k)) [
  | inl h ↦ ground (arith, e, (bytes_eq_iff (codes "web") k).0 h)
  | inr h ↦ ground (arith, e, h)
]

weight_total_example : weight (suc (length services)) services [] web ≢ out_of_fuel
weight_total_example = weight_total services (codes "web") web services-IsPrepared refl

weighs-not_Needs_self_example : ¬ Needs services (codes "web") (codes "web")
unfolding weight weigh_after weigh_all priority ◌+ℤ◌
weighs-not_Needs_self_example =
    weighs-not_Needs_self 2 services [] (codes "web") web (pos 1000) refl refl

-- A tree of two services.
abbrev tree : List Weighted
tree = (web, pos 1000) ∷ (sample (codes "ui") [], pos 1_000_000) ∷ []

slice-append_example :
    slice (pos 0) (pos 5000) tree ++ slice (pos 5000) (negsuc 0) tree
    ≡ slice (pos 0) (negsuc 0) tree
unfolding is_end
slice-append_example =
    slice-append (pos 0) (pos 5000) (negsuc 0) tree ((omega arith, tt), (tt, tt)) refl (omega arith)
      (inr refl)

-- Three services, one of them after the others
abbrev db : Startup
db = sample (codes "db") []

abbrev logs : Startup
logs = sample (codes "logs") []

abbrev ui : Startup
ui = sample (codes "ui") (codes "db" ∷ codes "logs" ∷ [])

abbrev table : Dict Bytes Startup
table = (codes "db", db) ∷ (codes "logs", logs) ∷ (codes "ui", ui) ∷ []

abbrev three : List Startup
three = db ∷ logs ∷ ui ∷ []

three-IsWeighed : All (IsWeighed table 3) three
unfolding weight weigh_after weigh_all priority ◌+ℤ◌
three-IsWeighed =
    let placed : (n : ℤ) (s : Startup)
        → lookup s.key table ≡ some s
        → priority s.key ≡ none
        → weight 3 table [] s ≡ weighs n
        → IsWeighed table 3 s =
      λ n s found free weighed. record {
        found = found;
        weighed = (n, weighed);
        no_priority = free;
      } in
    (
      placed (pos 1_000_000) db refl refl refl,
      (placed (pos 1_000_000) logs refl refl refl, (placed (pos 2_000_000) ui refl refl refl, tt)),
    )

abbrev met : Startup → Bool
met s = not (s.key == codes "logs")

-- The service `logs` is skipped, `db` runs and its hook fires, and so `ui` is refused.
abbrev over : Slice
over = record {
  machine =
      (codes "db", record { closed = true; s = true })
      ∷ (codes "logs", record { closed = true; s = false })
      ∷ (codes "ui", record { closed = true; s = false })
      ∷ [];
  status = (codes "logs", skipped) ∷ (codes "db", running) ∷ (codes "ui", refused) ∷ [];
}

over-Reach : Reach met three (codes "db" ∷ []) over
unfolding launch status_of advance hook_fires wait release new_state_machine
over-Reach =
    goes ui true (fires (codes "db") true (goes db true launched mem-cons_self refl refl) refl)
      (mem-cons_of_mem db (mem-cons_of_mem logs mem-cons_self)) refl refl

over-Rests : All (Rests (codes "db" ∷ []) over) three
unfolding status_of
over-Rests = (refl, (tt, (tt, tt)))

wait_all_of_rest_example : wait_all over.machine ≡ true
wait_all_of_rest_example =
    wait_all_of_rest table 3 met three (codes "db" ∷ []) over three-IsWeighed over-Reach over-Rests

-- A service that is named like the priority of the network.
abbrev net : Startup
net = sample (codes "net") (codes "net" ∷ [])

abbrev begun : Slice
begun = record { machine = (codes "net", record { closed = false; s = false }) ∷ []; status = [] }
