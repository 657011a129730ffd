-- ===== src/Mgr/Job/Restart/Count.antt =====
-- How often a job of base/mgr/job.go runs.
use debug_bootstrap.Prelude.{
  ℕ, suc, ◌+◌, ◌≤◌, ◌<◌, max, ◌≡◌, refl, true, false, none, some, List, [], ◌∷◌, ◌++◌, length, All,
  arith, ap, ◌∙◌, inl, inr, ◌⊎◌, Bool-cases,
}
use mathlib.Core.Path.{ap₂}
use native.Mathlib.Nat.{add-zero, zero-add}
use debug_bootstrap.Prelude.Int.{pos, negsuc, positive}
use debug_bootstrap.Pm.Command.{Command}
use debug_bootstrap.Pm.Result.{success}
use debug_bootstrap.Mgr.Job.Restart.{
  Attempt, stop, again, seconds, backed_off, Delay, succeeded, count_run, after_run, runs_from,
}

-- A run that fails, of a job that is neither protected nor unscheduled.
abbrev pub Fails : Attempt → Type 0
Fails a = (succeeded a.state ≡ false) × (a.protected ≡ false) × (a.unscheduled ≡ false)

-- A restart limit, as a number: 0 for one that is not positive.
abbrev pub limit_of : Command → ℕ
limit_of cmd = elim cmd.max_restart [ pos n ↦ n | negsuc n ↦ 0 ]

Fails-again :
    (cmd : Command) (runs : ℕ) (a : Attempt)
    → positive cmd.recurring_period ≡ false
    → Fails a
    → suc runs < limit_of cmd
    → after_run cmd runs a ≡ again (suc runs) (seconds (pos 1))
unfolding after_run
Fails-again cmd runs a p f h = ground arith

Fails-stop :
    (cmd : Command) (runs : ℕ) (a : Attempt)
    → positive cmd.recurring_period ≡ false
    → Fails a
    → limit_of cmd ≤ suc runs
    → after_run cmd runs a ≡ stop
unfolding after_run
Fails-stop cmd runs a p f h = ground arith

succeeds-stop :
    (cmd : Command) (runs : ℕ) (a : Attempt)
    → positive cmd.recurring_period ≡ false
    → a.protected ≡ false
    → a.state ≡ success
    → after_run cmd runs a ≡ stop
unfolding after_run
succeeds-stop cmd runs a p f h = ground arith

-- Any number of failed runs that leave some restarts over.
runs-restarts :
    (cmd : Command) (made runs : ℕ) (ts rest : List Attempt)
    → positive cmd.recurring_period ≡ false
    → All Fails ts
    → (ts ≡ []) ⊎ (runs + length ts < limit_of cmd)
    → runs_from cmd made runs (ts ++ rest)
      ≡ runs_from cmd (made + length ts) (runs + length ts) rest
unfolding runs_from
runs-restarts cmd made runs [] rest p f h = rw (add-zero made, add-zero runs)
runs-restarts cmd made runs (a ∷ ts) rest p f (inl e) = cc
runs-restarts cmd made runs (a ∷ ts) rest p f (inr h) =
    rw (Fails-again cmd runs a p f.0 (omega arith), runs_from)
      (runs-restarts cmd (suc made) (suc runs) ts rest p f.1 (inr (omega arith))
        ∙ ap₂ (λ m r. runs_from cmd m r rest) (omega arith) (omega arith))

runs-stop :
    (cmd : Command) (made runs : ℕ) (a : Attempt) (rest : List Attempt)
    → after_run cmd runs a ≡ stop
    → runs_from cmd made runs (a ∷ rest) ≡ some (suc made)
unfolding runs_from
runs-stop cmd made runs a rest e = rw (e, runs_from)

room : (n limit : ℕ) (ts : List Attempt) → length ts ≡ n → n < max 1 limit → (ts ≡ []) ⊎ (n < limit)
room n limit [] e h = inl refl
room n limit (t ∷ ts) e h = inr (omega (arith, e))

-- A job that is not protected, does not recur, is not unscheduled and always fails runs exactly as
-- often as its restart limit says, and once where it has none, whatever would come after.
pub runs-fail :
    (cmd : Command) (ts : List Attempt) (a : Attempt) (rest : List Attempt)
    → positive cmd.recurring_period ≡ false
    → All Fails ts
    → Fails a
    → suc (length ts) ≡ max 1 (limit_of cmd)
    → runs_from cmd 0 0 (ts ++ a ∷ rest) ≡ some (max 1 (limit_of cmd))
runs-fail cmd ts a rest p fs f e =
    runs-restarts cmd 0 0 ts (a ∷ rest) p fs
      (rw zero-add (room _ (limit_of cmd) ts refl (omega (arith, e))))
    ∙ runs-stop cmd (0 + length ts) (0 + length ts) a rest
        (Fails-stop cmd (0 + length ts) a p f (omega (arith, e)))
    ∙ ap some (omega (arith, e))

-- A job that is not protected and does not recur runs no more after its first success: when it
-- fails fewer times than its restart limit says, not at all where it has none, and then succeeds, it has run once more than it failed.
pub runs-success :
    (cmd : Command) (ts : List Attempt) (a : Attempt) (rest : List Attempt)
    → positive cmd.recurring_period ≡ false
    → All Fails ts
    → length ts < max 1 (limit_of cmd)
    → a.protected ≡ false
    → a.state ≡ success
    → runs_from cmd 0 0 (ts ++ a ∷ rest) ≡ some (suc (length ts))
runs-success cmd ts a rest p fs h q e =
    runs-restarts cmd 0 0 ts (a ∷ rest) p fs (rw zero-add (room _ (limit_of cmd) ts refl h))
    ∙ runs-stop cmd (0 + length ts) (0 + length ts) a rest
        (succeeds-stop cmd (0 + length ts) a p q e)
    ∙ ap some (omega arith)

recurs-again :
    (cmd : Command) (runs : ℕ) (a : Attempt)
    → positive cmd.recurring_period ≡ true
    → (a.protected ≡ true) ⊎ (a.unscheduled ≡ false)
    → (n : ℕ) × (d : Delay) × (after_run cmd runs a ≡ again n d)
unfolding after_run
recurs-again cmd runs a p (inl h) = (runs, backed_off, rw h)
recurs-again cmd runs a p (inr h) = elim (Bool-cases a.protected) [
  | inl t ↦ (runs, backed_off, rw t)
  | inr f ↦ (count_run cmd runs a.state, seconds cmd.recurring_period, rw (f, p, h))
]

-- A job that recurs never ends by itself: as long as it is protected or not unscheduled, it runs
-- again after every run, successful or not.
pub runs-recurring :
    (cmd : Command) (made runs : ℕ) (ts : List Attempt)
    → positive cmd.recurring_period ≡ true
    → All (λ a. (a.protected ≡ true) ⊎ (a.unscheduled ≡ false)) ts
    → runs_from cmd made runs ts ≡ none
unfolding runs_from
runs-recurring cmd made runs [] p h = refl
runs-recurring cmd made runs (a ∷ ts) p h =
    let (n, d, e) = recurs-again cmd runs a p h.0 in
    rw (e, runs_from) (runs-recurring cmd (suc made) n ts p h.1)
