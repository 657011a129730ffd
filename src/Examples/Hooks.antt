-- ===== src/Examples/Hooks.antt =====
-- A hook that waits for a text.
use debug_bootstrap.Prelude.{
  ◌≤◌, refl, true, false, none, List, [], ◌∷◌, codes, length, ◌==◌, bytes_equal,
}
use debug_bootstrap.Stream.Meta.{Message}
use debug_bootstrap.Pm.Result.{success}
use debug_bootstrap.Pm.Hook.{Hook, match_hook}
use debug_bootstrap.Pm.Hook.Once.{Call, ticks, exits, messages, calls, calls-once}

abbrev ready : Message
ready = record { message = codes "ready"; epoch = 0; meta = 0 }

abbrev waits_for : Hook
waits_for = match_hook false (codes "ready") none

abbrev life : List Call
life = messages ready ∷ ticks 5 ∷ messages ready ∷ exits success ∷ []

calls-once_example : length (calls (λ p. true) (λ p s. p == s) waits_for life).1 ≤ 1
calls-once_example = calls-once (λ p. true) (λ p s. p == s) waits_for life refl
