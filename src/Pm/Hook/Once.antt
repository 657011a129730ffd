-- ===== src/Pm/Hook/Once.antt =====
-- How often the hooks of base/pm/runnerhook.go act.
use debug_bootstrap.Prelude.{
  ℕ, ◌+◌, ◌≤◌, ◌≡◌, refl, Bool, true, false, Option, none, some, List, [], ◌∷◌, ◌++◌, Bytes, length,
  length-append, if◌then◌else◌, arith, Bool-cases, inl, inr,
}
use debug_bootstrap.Stream.Meta.{Message}
use debug_bootstrap.Pm.Result.{JobState}
use debug_bootstrap.Pm.Hook.{
  Hook, delay_hook, exit_hook, pid_hook, match_hook, buffer_hook, message_hook, Action, tick, exit,
  pid, message, once, compile_once, match_message,
}

-- What a job calls: a tick, a message, the process's id, the end of a run.
pub data Call : Type 0 where
  ticks pids : ℕ → Call
  exits : JobState → Call
  messages : Message → Call

-- Every kind but the MessageHook, which acts on each message.
abbrev pub acts_once : Hook → Bool
acts_once message_hook = false
acts_once _ = true

abbrev left : Hook → ℕ
left (delay_hook done delay) = if done then 0 else 1
left (exit_hook done) = if done then 0 else 1
left (pid_hook done) = if done then 0 else 1
left (match_hook done pattern p) = if done then 0 else 1
left (buffer_hook out err) = 0
left message_hook = 0

module _ (compile : Bytes → Bool) (matches : Bytes → Bytes → Bool) where
  abbrev pub call : Hook → Call → Hook × List Action
  call h (ticks d) = tick h d
  call h (pids n) = pid h n
  call h (exits state) = exit h state
  call h (messages msg) = message compile matches h msg

  abbrev pub calls : Hook → List Call → Hook × List Action
  calls h [] = (h, [])
  calls h (c ∷ cs) = let (h', out) = call h c in let (h'', more) = calls h' cs in (h'', out ++ more)

  abbrev Spends : Hook → Hook × List Action → Type 0
  Spends h r = (acts_once r.0 ≡ true) × (length r.1 + left r.0 ≤ left h)

  match_message-Spends :
      (done : Bool) (pattern : Bytes) (o : Option Bytes) (p : Option (Option Bytes)) (msg : Message)
      → Spends (match_hook done pattern p) (match_message compile matches done pattern o msg)
  unfolding match_message
  match_message-Spends done pattern none p msg = (refl, omega arith)
  match_message-Spends true pattern (some q) p msg = (refl, omega arith)
  match_message-Spends false pattern (some q) p msg = elim (Bool-cases (matches q msg.message)) [
    | inl h ↦ rw h (refl, omega arith)
    | inr h ↦ rw h (refl, omega arith)
  ]

  call-Spends : (h : Hook) (c : Call) → acts_once h ≡ true → Spends h (call h c)
  unfolding tick exit pid message once
  call-Spends (delay_hook true delay) (ticks d) a = ground arith
  call-Spends (delay_hook false delay) (ticks d) a = ground arith
  call-Spends (exit_hook true) (exits state) a = (refl, omega arith)
  call-Spends (exit_hook false) (exits state) a = (refl, omega arith)
  call-Spends (pid_hook true) (pids n) a = (refl, omega arith)
  call-Spends (pid_hook false) (pids n) a = (refl, omega arith)
  call-Spends (match_hook done pattern p) (messages msg) a =
      match_message-Spends done pattern (compile_once compile matches pattern p) p msg
  call-Spends (buffer_hook out err) (messages msg) a = ground arith
  call-Spends message_hook c a = absurd (ground arith)
  call-Spends (delay_hook done delay) (exits state) a = (refl, omega arith)
  call-Spends (delay_hook done delay) (pids n) a = (refl, omega arith)
  call-Spends (delay_hook done delay) (messages msg) a = (refl, omega arith)
  call-Spends (exit_hook done) (ticks d) a = (refl, omega arith)
  call-Spends (exit_hook done) (pids n) a = (refl, omega arith)
  call-Spends (exit_hook done) (messages msg) a = (refl, omega arith)
  call-Spends (pid_hook done) (ticks d) a = (refl, omega arith)
  call-Spends (pid_hook done) (exits state) a = (refl, omega arith)
  call-Spends (pid_hook done) (messages msg) a = (refl, omega arith)
  call-Spends (match_hook done pattern p) (ticks d) a = (refl, omega arith)
  call-Spends (match_hook done pattern p) (exits state) a = (refl, omega arith)
  call-Spends (match_hook done pattern p) (pids n) a = (refl, omega arith)
  call-Spends (buffer_hook out err) (ticks d) a = (refl, omega arith)
  call-Spends (buffer_hook out err) (exits state) a = (refl, omega arith)
  call-Spends (buffer_hook out err) (pids n) a = (refl, omega arith)

  calls-Spends : (h : Hook) (cs : List Call) → acts_once h ≡ true → length (calls h cs).1 ≤ left h
  calls-Spends h [] a = omega arith
  calls-Spends h (c ∷ cs) a =
      let (same, spent) = call-Spends h c a in
      omega (
        arith,
        spent,
        calls-Spends (call h c).0 cs same,
        length-append (call h c).1 (calls (call h c).0 cs).1,
      )

  left_le : (h : Hook) → left h ≤ 1
  left_le h = ground arith

  -- Whatever a job calls, over any number of runs, a hook that is not a MessageHook acts at most
  -- once.
  pub calls-once : (h : Hook) (cs : List Call) → acts_once h ≡ true → length (calls h cs).1 ≤ 1
  calls-once h cs a = omega (arith, calls-Spends h cs a, left_le h)
