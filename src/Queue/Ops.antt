-- ===== src/Queue/Ops.antt =====
-- The queue operations of src/rulekiln/db/repositories/jobs.py, one function for each, and the
-- operator's cancel, retry and submit handlers of src/rulekiln/ui/routes.py. `now` is the reading
-- of the clock that the statement uses.
use rule_kiln.Prelude.{
  ℕ, ◌+◌, ◌*◌, Bool, true, false, not, ◌&&◌, Option, none, some, [], ◌∷◌, ◌++◌, String, str_eq, ltb,
  leb, find, count_if, if◌then◌else◌,
}
use rule_kiln.Queue.Job.{
  Job, JobStatus, QueueStatus, is_pending, is_running, is_draft, is_terminal, is_retryable,
}
use rule_kiln.Queue.Table.{Table, update_where, first_created}

-- `timedelta(seconds=n)`
abbrev pub seconds : ℕ → ℕ
seconds n = n * 1000000

abbrev pub has_id : String → Job → Bool
has_id id j = str_eq j.id id

unfoldable pub create_job : Job → Table → Table
create_job j t = t ++ j ∷ []

unfoldable pub get_job : String → Table → Option Job
get_job id t = find (has_id id) t

-- A column whose value is not given keeps what it has.
abbrev pub given {ℓ} : {A : Type ℓ} → Option A → Option A → Option A
given none old = old
given (some v) old = some v

unfoldable pub update_job_status :
    String → JobStatus → Option String → Option String → Table → Table
update_job_status id status stage message t =
    update_where (has_id id)
      (λ j. record j {
        status = status;
        stage = given stage j.stage;
        error_message = given message j.error_message;
      })
      t

unfoldable pub set_mlflow_run_id : String → String → Table → Table
set_mlflow_run_id id run t = update_where (has_id id) (λ j. record j { mlflow_run_id = some run }) t

-- The lock columns of a row that nobody holds.
abbrev pub unlocked : Job → Job
unlocked j = record j { locked_by = none; locked_at = none; lease_expires_at = none }

-- `WHERE queue_status = 'pending' AND next_run_at <= now() … SKIP LOCKED`: `skip` holds for the
-- rows that other transactions have locked.
abbrev pub is_claimable : ℕ → (Job → Bool) → Job → Bool
is_claimable now skip j = is_pending j.queue_status && leb j.next_run_at now && not (skip j)

abbrev pub claimed : String → ℕ → ℕ → Job → Job
claimed worker lease_seconds now j = record j {
  queue_status = QueueStatus.running;
  status = JobStatus.running;
  locked_by = some worker;
  locked_at = some now;
  lease_expires_at = some (now + seconds lease_seconds);
  attempt_count = j.attempt_count + 1;
}

-- The update of the chosen row, and the row read back.
abbrev pub claim_row : String → ℕ → ℕ → Table → Option Job → Table × Option Job
claim_row worker lease_seconds now t none = (t, none)
claim_row worker lease_seconds now t (some j) =
    let t' = update_where (has_id j.id) (claimed worker lease_seconds now) t in
    (t', get_job j.id t')

unfoldable pub claim_next_job : String → ℕ → ℕ → (Job → Bool) → Table → Table × Option Job
claim_next_job worker lease_seconds now skip t =
    claim_row worker lease_seconds now t (first_created (is_claimable now skip) t)

abbrev pub is_locked_by : String → Option String → Bool
is_locked_by worker none = false
is_locked_by worker (some w) = str_eq w worker

abbrev pub is_leased : String → String → Job → Bool
is_leased id worker j = has_id id j && is_locked_by worker j.locked_by && is_running j.queue_status

unfoldable pub renew_lease : String → String → ℕ → ℕ → Table → Table
renew_lease id worker lease_seconds now t =
    update_where (is_leased id worker)
      (λ j. record j { lease_expires_at = some (now + seconds lease_seconds) }) t

abbrev pub completed : Job → Job
completed j = record (unlocked j) {
  queue_status = QueueStatus.completed;
  status = JobStatus.completed;
}

unfoldable pub complete_job : String → Table → Table
complete_job id t = update_where (has_id id) completed t

-- The row that a failure leaves: not to be run again, with a status and a message.
abbrev pub failed : JobStatus → String → Job → Job
failed status message j = record (unlocked j) {
  queue_status = QueueStatus.failed;
  status = status;
  error_message = some message;
}

unfoldable pub cancel_job : String → String → Table → Table
cancel_job id message t = update_where (has_id id) (failed JobStatus.failed_terminal message) t

unfoldable pub fail_job : String → String → Table → Table
fail_job id message t = update_where (has_id id) (failed JobStatus.failed message) t

abbrev pub requeued : Bool → ℕ → Job → Job
requeued queue_backed now j = record (unlocked j) {
  status = if queue_backed then JobStatus.waiting_for_retry else JobStatus.created;
  queue_status = if queue_backed then QueueStatus.pending else QueueStatus.created;
  next_run_at = now;
  error_message = none;
}

unfoldable pub retry_job : String → Bool → ℕ → Table → Table × JobStatus
retry_job id queue_backed now t = (
  update_where (has_id id) (requeued queue_backed now) t,
  if queue_backed then JobStatus.waiting_for_retry else JobStatus.created,
)

abbrev pub backed_off : String → ℕ → ℕ → Job → Job
backed_off message backoff now j = record (unlocked j) {
  queue_status = QueueStatus.pending;
  status = JobStatus.waiting_for_retry;
  next_run_at = now + seconds backoff;
  error_message = some message;
}

-- The status of a job whose failure is final.
abbrev pub final_status : Bool → JobStatus
final_status true = JobStatus.failed_retryable
final_status false = JobStatus.failed_terminal

abbrev pub failure_policy : String → String → Bool → ℕ → ℕ → Table → Option Job → Table × JobStatus
failure_policy id message retryable backoff now t none = (t, JobStatus.failed_terminal)
failure_policy id message retryable backoff now t (some job) =
    if retryable && ltb job.attempt_count job.max_attempts
    then (update_where (has_id id) (backed_off message backoff now) t, JobStatus.waiting_for_retry)
    else (
      update_where (has_id id) (failed (final_status retryable) message) t,
      final_status retryable,
    )

unfoldable pub apply_job_failure_policy : String → String → Bool → ℕ → ℕ → Table → Table × JobStatus
unfolding get_job
apply_job_failure_policy id message retryable backoff now t =
    failure_policy id message retryable backoff now t (get_job id t)

-- `lease_expires_at < now`, which a NULL does not satisfy.
abbrev pub is_before : ℕ → Option ℕ → Bool
is_before now none = false
is_before now (some at) = ltb at now

abbrev pub is_expired : ℕ → Job → Bool
is_expired now j = is_running j.queue_status && is_before now j.lease_expires_at

abbrev pub can_retry : ℕ → Job → Bool
can_retry now j = is_expired now j && ltb j.attempt_count j.max_attempts

abbrev pub cannot_retry : ℕ → Job → Bool
cannot_retry now j = is_expired now j && leb j.max_attempts j.attempt_count

abbrev pub returned : Job → Job
returned j = record (unlocked j) {
  queue_status = QueueStatus.pending;
  status = JobStatus.waiting_for_retry;
}

abbrev pub exhausted : Job → Job
exhausted j = failed JobStatus.failed_retryable "Job exceeded maximum retry attempts." j

-- The two updates, the second on what the first left, and the rows that each wrote.
unfoldable pub recover_expired_leases : ℕ → Table → Table × (ℕ × ℕ)
recover_expired_leases now t =
    let t' = update_where (can_retry now) returned t in
    (
      update_where (cannot_retry now) exhausted t',
      (count_if (can_retry now) t, count_if (cannot_retry now) t'),
    )

-- `cancel_job_from_ui`: a job that has ended is left alone.
abbrev pub cancel_found : Table → Option Job → Table
cancel_found t none = t
cancel_found t (some j) =
    if is_terminal j.status then t else cancel_job j.id "Cancelled by operator." t

unfoldable pub cancel_from_ui : String → Table → Table
unfolding get_job cancel_job
cancel_from_ui id t = cancel_found t (get_job id t)

-- `retry_job_from_ui`: only a failed job is queued again.
abbrev pub retry_found : ℕ → Table → Option Job → Table
retry_found now t none = t
retry_found now t (some j) = if is_retryable j.status then (retry_job j.id true now t).0 else t

unfoldable pub retry_from_ui : String → ℕ → Table → Table
unfolding get_job retry_job
retry_from_ui id now t = retry_found now t (get_job id t)

-- `start_job`: a draft whose payload is valid gets the current retry cap and a pending status.
abbrev pub start_found : ℕ → Table → Option Job → Table
start_found max_attempts t none = t
start_found max_attempts t (some j) =
    if is_draft j.status
    then update_job_status j.id JobStatus.pending none none
        (update_where (has_id j.id) (λ r. record r { max_attempts = max_attempts }) t)
    else t

unfoldable pub start_from_ui : String → ℕ → Table → Table
unfolding get_job update_job_status
start_from_ui id max_attempts t = start_found max_attempts t (get_job id t)
