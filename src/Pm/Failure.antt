-- ===== src/Pm/Failure.antt =====
-- base/pm/error.go: errors, those that carry a status code among them.
use debug_bootstrap.Prelude.{ℕ, Bool, true, false, Option, none, some, Bytes}

-- `plain` is any error of another kind, by its text.
pub data Failure : Type 0 where
  unknown_command : Bytes → Failure
  run_error : ℕ → Bytes → Failure
  plain : Bytes → Failure

-- func IsUnknownCommand: nil is no error
unfoldable pub is_unknown_command : Option Failure → Bool
is_unknown_command (some (unknown_command cmd)) = true
is_unknown_command _ = false

-- err.(RunError), and its Code()
unfoldable pub run_code : Failure → Option ℕ
run_code (run_error code cause) = some code
run_code _ = none

unfoldable pub not_found_error : Bytes → Failure
not_found_error cause = run_error 404 cause

unfoldable pub bad_request_error : Bytes → Failure
bad_request_error cause = run_error 400 cause

unfoldable pub service_unavailable_error : Bytes → Failure
service_unavailable_error cause = run_error 503 cause

unfoldable pub not_acceptable_error : Bytes → Failure
not_acceptable_error cause = run_error 406 cause

unfoldable pub precondition_failed_error : Bytes → Failure
precondition_failed_error cause = run_error 412 cause

unfoldable pub internal_error : Bytes → Failure
internal_error cause = run_error 500 cause
