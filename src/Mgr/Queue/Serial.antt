-- ===== src/Mgr/Queue/Serial.antt =====
-- The queue of base/mgr/queue.go against what it promises: by name, first in first out, one job
-- at a time.
use debug_bootstrap.Prelude.{
  ◌≡◌, refl, sym, ap, ◌∙◌, ◌≢◌, List, [], ◌∷◌, ◌++◌, Bytes, ◌==◌, take, take-append-drop, drop,
  arith, bytes_equal, append_assoc, append-nil, Bool-cases, inl, inr,
}
use debug_bootstrap.Mgr.Queue.{Queue, init, first_only}
use debug_bootstrap.Mgr.Queue.Trace.{
  Op, pushes, notifies, step, run, only, waiting_step, waiting, served_step, served, pushed,
}
use debug_bootstrap.Mgr.Queue.Holds.{Holds, sent_step, step-Holds}

module _ {J : Type 0} (name : J → Bytes) where
  -- What is sent next is what then stands in front.
  sent-front :
      (n : Bytes) (xs : List J) (o : Op J)
      → take 1 xs ++ sent_step name n xs o
        ≡ served_step name n xs o ++ take 1 (waiting_step name n xs o)
  unfolding first_only
  sent-front n [] (pushes j) = ground arith
  sent-front n (x ∷ xs) (pushes j) = ground arith
  sent-front n [] (notifies j) = ground arith
  sent-front n (x ∷ []) (notifies j) = ground arith
  sent-front n (x ∷ y ∷ xs) (notifies j) = ground arith

  run_from-serial :
      (q : Queue J) (xs : Bytes → List J) (out before : List J) (os : List (Op J)) (n : Bytes)
      → n ≢ []
      → Holds name q xs
      → only name n out ≡ before ++ take 1 (xs n)
      → only name n (run name (q, out) os).1
        ≡ before ++ (served name n (xs n) os ++ take 1 (waiting name n (xs n) os))
  unfolding run
  run_from-serial q xs out before [] n h v e = e
  run_from-serial q xs out before (o ∷ os) n h v e =
      let (v', sent) = step-Holds name q xs out o v in
      let now : only name n (step name (q, out) o).1
          ≡ (before ++ served_step name n (xs n) o) ++ take 1 (waiting_step name n (xs n) o) =
        sent n h
        ∙ rw
            (
              e,
              append_assoc before (take 1 (xs n)) (sent_step name n (xs n) o),
              sent-front n (xs n) o,
            )
            (sym (append_assoc before (served_step name n (xs n) o) _)) in
      run_from-serial (step name (q, out) o).0 (λ n. waiting_step name n (xs n) o)
        (step name (q, out) o).1 (before ++ served_step name n (xs n) o) os n h v' now
      ∙ simp append_assoc

  served-waiting :
      (n : Bytes) (xs : List J) (os : List (Op J))
      → served name n xs os ++ waiting name n xs os ≡ xs ++ pushed name n os
  served-waiting n xs [] = sym (append-nil xs)
  served-waiting n xs (pushes j ∷ os) = elim (Bool-cases (name j == n)) [
    | inl t ↦
        rw t (served-waiting n (xs ++ j ∷ []) os ∙ append_assoc xs (j ∷ []) (pushed name n os))
    | inr f ↦ rw f (served-waiting n xs os)
  ]
  served-waiting n xs (notifies j ∷ os) = elim (Bool-cases (name j == n)) [
    | inl t ↦ rw t (
        append_assoc (take 1 xs) (served name n (drop 1 xs) os) (waiting name n (drop 1 xs) os)
        ∙ ap (◌++◌ (take 1 xs)) (served-waiting n (drop 1 xs) os)
        ∙ sym (append_assoc (take 1 xs) (drop 1 xs) (pushed name n os))
        ∙ ap (λ l. l ++ pushed name n os) (take-append-drop 1 xs))
    | inr f ↦ rw f (served-waiting n xs os)
  ]

  init-Holds : Holds name init (λ n. [])
  unfolding init
  init-Holds = record { is_open = refl; unnamed = refl; entries = λ n h. refl; named = λ n. tt }

  -- On a queue that is never closed, in any order of pushes and notifications, the jobs sent under
  -- a queue name are those that were served, and then the first of those that wait: one at a time.
  -- Those served and those that wait are together the jobs pushed under the name, in that order.
  pub run-serial :
      (os : List (Op J)) (n : Bytes)
      → n ≢ []
      → (only name n (run name (init, []) os).1
          ≡ served name n [] os ++ take 1 (waiting name n [] os))
        × (served name n [] os ++ waiting name n [] os ≡ pushed name n os)
  run-serial os n h =
      (run_from-serial init (λ n. []) [] [] os n h init-Holds refl, served-waiting n [] os)
