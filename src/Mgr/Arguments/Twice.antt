-- ===== src/Mgr/Arguments/Twice.antt =====
-- RunSlice of base/mgr/pm.go processes the arguments of a service twice.
use debug_bootstrap.Prelude.{
  ℕ, suc, ◌≡◌, refl, ◌∙◌, ap, true, false, Option, some, List, [], ◌∷◌, ◌++◌, Bytes, bytes_equal,
  bytes_eq_iff, ◌==◌, split_two, split_two-append, IsFreeOf,
}
use debug_bootstrap.Settings.Condition.{Expression, condition, get_expression, examine}
use debug_bootstrap.Mgr.Arguments.{
  ArgValue, Args, no_args, arg, find, drop_key, processed, then_args, has_value, examined,
  conditional, store_value, process_key, process_keys, process_args, startup_args,
}

-- An argument that stands alone, under a condition that is read and does not hold in the
-- environment, is gone after both calls, whatever the options of the kernel are.
pub startup_args-hidden :
    (trim_space : Bytes → Bytes) (walk : Args → List Bytes) (fuel : ℕ)
    (environment cmdline : Bytes → Option Bytes) (first second : Bytes) (v : ArgValue)
    (e : Expression)
    → walk no_args ≡ []
    → walk (arg (first ++ b'|' ∷ second) v no_args) ≡ (first ++ b'|' ∷ second) ∷ []
    → IsFreeOf b'|' first
    → get_expression (suc fuel) (trim_space first) ≡ condition e
    → examine (has_value environment) e ≡ some false
    → startup_args trim_space walk
        (suc fuel)
        environment
        cmdline
        (arg (first ++ b'|' ∷ second) v no_args)
      ≡ processed no_args
unfolding startup_args process_args process_keys process_key conditional examined drop_key then_args
startup_args-hidden trim_space walk fuel environment cmdline first second v e nothing one free
      parsed unmet =
    let key = first ++ b'|' ∷ second in
    let args = arg key v no_args in
    let parts : split_two b'|' key ≡ (first, some second) =
      split_two-append b'|' first second free in
    let same : (key == key) ≡ true = (bytes_eq_iff key key).1 refl in
    let store =
      store_value environment (process_args trim_space walk fuel environment) (trim_space second)
        (find key args) in
    let turn : process_key trim_space walk (suc fuel) environment
          (process_args trim_space walk fuel environment) key args
        ≡ processed no_args =
      rw (process_key, parts, parts) refl
      ∙ ap (conditional environment key store args) parsed
      ∙ ap (examined key store args) unmet
      ∙ rw same refl in
    let done : process_args trim_space walk (suc fuel) environment args ≡ processed no_args =
      rw (process_args, one, process_keys, turn) refl in
    rw (startup_args, done) (rw (process_args, nothing) refl)
