-- ===== src/Pm/Command.antt =====
-- base/pm/command.go and job.go: what a job is asked to do.
use debug_bootstrap.Prelude.{ℕ, Bool, Option, List, Bytes}
use debug_bootstrap.Prelude.Int.{ℤ}

-- type JobFlags struct
pub record JobFlags : Type 0 where
  pub protected : Bool
  pub no_output : Bool
  pub no_set_pgid : Bool

-- type Command struct. `arguments` is the raw JSON text behind the pointer.
pub record Command : Type 0 where
  pub id : Bytes
  pub command : Bytes
  pub arguments : Option Bytes
  pub queue : Bytes
  pub stats_interval : ℤ
  pub max_time : ℤ
  pub max_restart : ℤ
  pub recurring_period : ℤ
  pub stream : Bool
  pub log_levels : List ℤ
  pub tags : List Bytes
  pub core : ℕ
  pub flags : JobFlags

abbrev pub standard_stream_buffer_size : ℕ
standard_stream_buffer_size = 100

abbrev pub generic_stream_buffer_size : ℕ
generic_stream_buffer_size = 10
