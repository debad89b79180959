-- ===== src/Queue/Policy.antt =====
-- `apply_job_failure_policy`: what becomes of a job whose run failed.
use rule_kiln.Prelude.{
  ℕ, ◌+◌, ◌≡◌, refl, ◌∙◌, Bool, true, false, ◌&&◌, none, some, String, arith, str_eq, str_eq_self,
  ltb, if◌then◌else◌,
}
use rule_kiln.Queue.Job.{Job, JobStatus, QueueStatus}
use rule_kiln.Queue.Table.{Table, update_where}
use rule_kiln.Queue.Keys.{get_job-update_where}
use rule_kiln.Queue.Ops.{
  get_job, has_id, apply_job_failure_policy, seconds, backed_off, failed, final_status,
}

-- What a failure leaves: the job is unlocked, keeps its number of attempts and holds the message,
-- and its status is the one returned. With `again` it waits until a time, and without it has
-- failed, as exhausted if the failure was retryable. Every other job is as it was.
abbrev pub Outcome : String → String → Bool → ℕ → Table → Job → Bool → Table × JobStatus → Type 0
Outcome id message retryable at t j again (u, status) =
    (j' : Job) × (get_job id u ≡ some j')
    × (j'.status ≡ status)
    × (j'.locked_by ≡ none)
    × (j'.lease_expires_at ≡ none)
    × (j'.attempt_count ≡ j.attempt_count)
    × (j'.error_message ≡ some message)
    × (if again
        then ((j'.queue_status ≡ QueueStatus.pending)
            × (j'.next_run_at ≡ at)
            × (status ≡ JobStatus.waiting_for_retry))
        else ((j'.queue_status ≡ QueueStatus.failed)
            × (status
                ≡ (if retryable then JobStatus.failed_retryable else JobStatus.failed_terminal))))
    × ((k : String) → str_eq k id ≡ false → get_job k u ≡ get_job k t)

module _ (id message : String) (retryable : Bool) (backoff now : ℕ) (t : Table) (j : Job)
    (e : get_job id t ≡ some j) where
  written :
      (set : Job → Job)
      → ((k : Job) → (set k).id ≡ k.id)
      → get_job id (update_where (has_id id) set t) ≡ some (set j)
  written set keep = get_job-update_where id id set t keep ∙ rw (str_eq_self id, e)

  others :
      (set : Job → Job)
      → ((k : Job) → (set k).id ≡ k.id)
      → (k : String) → str_eq k id ≡ false
      → get_job k (update_where (has_id id) set t) ≡ get_job k t
  others set keep k other = get_job-update_where k id set t keep ∙ rw other

  failure_policy-Outcome :
      (again : Bool)
      → Outcome id message retryable (now + seconds backoff) t j again (
          if again
          then (
            update_where (has_id id) (backed_off message backoff now) t,
            JobStatus.waiting_for_retry,
          )
          else (
            update_where (has_id id) (failed (final_status retryable) message) t,
            final_status retryable,
          ))
  failure_policy-Outcome true =
      let set = backed_off message backoff now in
      (
        set j,
        written set (λ _. refl),
        refl,
        refl,
        refl,
        refl,
        refl,
        (refl, refl, refl),
        others set (λ _. refl),
      )
  failure_policy-Outcome false =
      let set = failed (final_status retryable) message in
      (
        set j,
        written set (λ _. refl),
        refl,
        refl,
        refl,
        refl,
        refl,
        (refl, ground arith),
        others set (λ _. refl),
      )

  -- The failure policy on a job of the table queues it again, behind the backoff, exactly if the
  -- failure is retryable and the job has an attempt left; otherwise the job has failed. In both
  -- cases it is unlocked with the message, its status is the one returned, its number of attempts
  -- and all other jobs are as they were.
  pub apply_job_failure_policy-Outcome :
      Outcome id message retryable
        (now + seconds backoff)
        t
        j
        (retryable && ltb j.attempt_count j.max_attempts)
        (apply_job_failure_policy id message retryable backoff now t)
  unfolding apply_job_failure_policy
  apply_job_failure_policy-Outcome =
      rw e (failure_policy-Outcome (retryable && ltb j.attempt_count j.max_attempts))
