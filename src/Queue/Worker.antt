-- ===== src/Queue/Worker.antt =====
-- One round of `worker_loop` (src/rulekiln/workers/dbos_worker.py): recover leases, claim a job, run
-- its workflow, and record how it ended.
use rule_kiln.Prelude.{
  ℕ, ◌+◌, ◌≡◌, refl, sym, subst, ◌∙◌, Bool, true, false, ◌&&◌, Option, none, some, String,
  str_eq_self, any, ltb,
}
use rule_kiln.Queue.Job.{Job, JobStatus, QueueStatus, is_running}
use rule_kiln.Queue.Table.{Table}
use rule_kiln.Queue.Keys.{get_job-update_where}
use rule_kiln.Queue.Ops.{
  get_job, recover_expired_leases, claim_next_job, complete_job, completed,
  apply_job_failure_policy, seconds,
}
use rule_kiln.Queue.Policy.{Outcome, apply_job_failure_policy-Outcome}
use rule_kiln.Queue.Errors.{
  Exc, classify_worker_error, format_worker_error_message, is_terminal_type,
  classify_worker_error-terminal,
}

-- What the worker reads from its settings.
pub record WorkerSettings : Type 0 where
  pub worker_lease_seconds : ℕ
  pub worker_retry_backoff_seconds : ℕ

-- `workflow` is what happens to the table while a claimed job's workflow runs, by that workflow and
-- by everybody else, and the exception that ended it, if one did.
module _ (lower : String → String) (httpx : Bool) (settings : WorkerSettings)
    (workflow : Job → Table → Table × Option Exc) where
  abbrev pub record_outcome : ℕ → String → Table × Option Exc → Table
  record_outcome now id (t, none) = complete_job id t
  record_outcome now id (t, some e) =
      (apply_job_failure_policy id (format_worker_error_message e)
        (classify_worker_error lower httpx e).retryable settings.worker_retry_backoff_seconds now
        t).0

  abbrev pub run_claimed : ℕ → Table × Option Job → Table
  run_claimed now (t, none) = t
  run_claimed now (t, some j) = record_outcome now j.id (workflow j t)

  -- `now` is the time of the claim, and `ended` that of the workflow's end.
  unfoldable pub worker_round : String → (Job → Bool) → ℕ → ℕ → Table → Table
  unfolding recover_expired_leases claim_next_job
  worker_round worker skip now ended t =
      let (recovered, _) = recover_expired_leases now t in
      run_claimed ended (claim_next_job worker settings.worker_lease_seconds now skip recovered)

  -- The row of a job that a worker is done with.
  abbrev pub IsReleased : String → Table → Type 0
  IsReleased id t =
      (j : Job) × (get_job id t ≡ some j)
      × (is_running j.queue_status ≡ false)
      × (j.locked_by ≡ none)
      × (j.lease_expires_at ≡ none)

  Outcome-IsReleased :
      (message : String) (retryable : Bool) (at : ℕ) (t : Table) (j : Job) (id : String)
      (again : Bool) (r : Table × JobStatus)
      → Outcome id message retryable at t j again r
      → IsReleased id r.0
  Outcome-IsReleased _ _ _ _ _ id true r (j', row, _, unlocked, unleased, _, _, (waits, _, _), _) =
      (j', row, rw waits, unlocked, unleased)
  Outcome-IsReleased _ _ _ _ _ id false r (j', row, _, unlocked, unleased, _, _, (ended, _), _) =
      (j', row, rw ended, unlocked, unleased)

  record_outcome-IsReleased :
      (now : ℕ) (id : String) (k : Job) (r : Table × Option Exc)
      → get_job id r.0 ≡ some k
      → IsReleased id (record_outcome now id r)
  unfolding complete_job
  record_outcome-IsReleased now id k (t, none) e = (
    completed k,
    get_job-update_where id id completed t (λ _. refl) ∙ rw (str_eq_self id, e),
    refl,
    refl,
    refl,
  )
  record_outcome-IsReleased now id k (t, some exc) e =
      let message = format_worker_error_message exc in
      let retryable = (classify_worker_error lower httpx exc).retryable in
      let backoff = settings.worker_retry_backoff_seconds in
      Outcome-IsReleased message retryable (now + seconds backoff) t k id
        (retryable && ltb k.attempt_count k.max_attempts)
        (apply_job_failure_policy id message retryable backoff now t)
        (apply_job_failure_policy-Outcome id message retryable backoff now t k e)

  -- However the workflow of a claimed job ends, the worker leaves the job's row unlocked and not
  -- running, as long as the workflow has not deleted the row.
  pub run_claimed-IsReleased :
      (now : ℕ) (t : Table) (j k : Job)
      → get_job j.id (workflow j t).0 ≡ some k
      → IsReleased j.id (run_claimed now (t, some j))
  run_claimed-IsReleased now t j k e = record_outcome-IsReleased now j.id k (workflow j t) e

  -- The row of a job that will not be run again, with the message of an exception.
  abbrev pub IsTerminated : String → Exc → Table → Type 0
  IsTerminated id e t =
      (j : Job) × (get_job id t ≡ some j)
      × (j.queue_status ≡ QueueStatus.failed)
      × (j.status ≡ JobStatus.failed_terminal)
      × (j.error_message ≡ some (format_worker_error_message e))

  -- A workflow that ends with an exception of a terminal class leaves its job failed, with the
  -- terminal status and the exception's message, whatever attempts are left.
  pub run_claimed-terminal :
      (now : ℕ) (t u : Table) (j k : Job) (e : Exc)
      → workflow j t ≡ (u, some e)
      → any is_terminal_type e.instance_of ≡ true
      → get_job j.id u ≡ some k
      → IsTerminated j.id e (run_claimed now (t, some j))
  run_claimed-terminal now t u j k e ended terminal row =
      let message = format_worker_error_message e in
      let backoff = settings.worker_retry_backoff_seconds in
      let outcome : Outcome j.id message false (now + seconds backoff) u k false
          (apply_job_failure_policy j.id message false backoff now u) =
        apply_job_failure_policy-Outcome j.id message false backoff now u k row in
      subst (λ r. IsTerminated j.id e (record_outcome now j.id r)) (sym ended)
        (rw (classify_worker_error-terminal lower httpx e terminal, record_outcome)
          (outcome.0, outcome.1, outcome.7.0, outcome.2 ∙ outcome.7.1, outcome.6))
