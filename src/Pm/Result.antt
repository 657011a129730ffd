-- ===== src/Pm/Result.antt =====
-- base/pm/result.go: the states in which a job ends, the levels of its messages, its result.
use debug_bootstrap.Prelude.{ℕ, List, [], ◌∷◌, Bytes}
use debug_bootstrap.Pm.Command.{Command}

-- type JobState string: its six constants, and "" for a result whose state is not set yet
pub data JobState : Type 0 where
  unset success error timeout killed unknown_cmd duplicate_id : JobState

abbrev pub level_stdout : ℕ
level_stdout = 1

abbrev pub level_stderr : ℕ
level_stderr = 2

abbrev pub level_critical : ℕ
level_critical = 9

abbrev pub level_statsd : ℕ
level_statsd = 10

abbrev pub level_result_json : ℕ
level_result_json = 20

-- JSON, YAML, TOML, HRD and job results
abbrev pub result_message_levels : List ℕ
result_message_levels = 20 ∷ 21 ∷ 22 ∷ 23 ∷ 30 ∷ []

-- type Streams []string
unfoldable pub stdout : List Bytes → Bytes
stdout [] = []
stdout (out ∷ rest) = out

unfoldable pub stderr : List Bytes → Bytes
stderr [] = []
stderr (out ∷ []) = []
stderr (out ∷ err ∷ rest) = err

-- type JobResult struct. `start_time` and `time` are the clock's and are left out.
pub record JobResult : Type 0 where
  pub id : Bytes
  pub command : Bytes
  pub payload : Bytes
  pub streams : List Bytes
  pub critical : Bytes
  pub level : ℕ
  pub state : JobState
  pub code : ℕ
  pub tags : List Bytes
  pub container : ℕ

unfoldable pub new_job_result : Command → JobResult
new_job_result cmd = record {
  id = cmd.id;
  command = cmd.command;
  payload = [];
  streams = [];
  critical = [];
  level = 0;
  state = unset;
  code = 0;
  tags = cmd.tags;
  container = 0;
}
