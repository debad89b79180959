-- ===== src/Queue/Job.antt =====
-- The row `DistillationJob` (src/rulekiln/db/models.py), with the columns that the queue reads or
-- writes. Request, usage and strategy columns, and `updated_at`, are read by no queue statement.
use rule_kiln.Prelude.{ℕ, zero, Bool, true, false, Option, none, String}

-- The texts stored in `status`.
pub data JobStatus : Type 0 where
  draft created pending running waiting_for_retry : JobStatus
  completed failed failed_retryable failed_terminal : JobStatus

-- The texts stored in `queue_status`.
pub data QueueStatus : Type 0 where
  created pending running completed failed : QueueStatus

-- Times are whole microseconds.
pub record Job : Type 0 where
  pub id : String
  pub status : JobStatus
  pub stage : Option String
  pub error_message : Option String
  pub mlflow_run_id : Option String
  pub created_at : ℕ
  pub queue_status : QueueStatus
  pub locked_by : Option String
  pub locked_at : Option ℕ
  pub lease_expires_at : Option ℕ
  pub attempt_count : ℕ
  pub max_attempts : ℕ
  pub next_run_at : ℕ

abbrev pub is_pending : QueueStatus → Bool
is_pending QueueStatus.pending = true
is_pending _ = false

abbrev pub is_running : QueueStatus → Bool
is_running QueueStatus.running = true
is_running _ = false

abbrev pub is_draft : JobStatus → Bool
is_draft JobStatus.draft = true
is_draft _ = false

-- `terminal_statuses` of the cancel handler.
abbrev pub is_terminal : JobStatus → Bool
is_terminal JobStatus.completed = true
is_terminal JobStatus.failed = true
is_terminal JobStatus.failed_terminal = true
is_terminal JobStatus.failed_retryable = true
is_terminal _ = false

-- `retryable_statuses` of the retry handler.
abbrev pub is_retryable : JobStatus → Bool
is_retryable JobStatus.failed = true
is_retryable JobStatus.failed_terminal = true
is_retryable JobStatus.failed_retryable = true
is_retryable _ = false

-- The row that the API inserts: the defaults of the model, no lock and no attempt.
abbrev pub new_job : String → ℕ → ℕ → Job
new_job id max_attempts now = record {
  id = id;
  status = JobStatus.created;
  stage = none;
  error_message = none;
  mlflow_run_id = none;
  created_at = now;
  queue_status = QueueStatus.pending;
  locked_by = none;
  locked_at = none;
  lease_expires_at = none;
  attempt_count = zero;
  max_attempts = max_attempts;
  next_run_at = now;
}

-- The row that the preview page inserts. It names no `queue_status`, so it gets the default.
abbrev pub draft_job : String → ℕ → ℕ → Job
draft_job id max_attempts now = record (new_job id max_attempts now) { status = JobStatus.draft }
