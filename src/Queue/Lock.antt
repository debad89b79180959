-- ===== src/Queue/Lock.antt =====
-- The lock columns: set exactly while a job runs, and never taken from a running job by a claim.
use rule_kiln.Prelude.{
  ℕ, ◌≡◌, refl, Bool, true, ◌&&◌, Option, none, some, [], ◌∷◌, String, arith, is_some, is_none, All,
  All-append, if_elim, if◌then◌else◌, ltb,
}
use rule_kiln.Queue.Job.{
  Job, JobStatus, is_running, is_terminal, is_retryable, is_draft, new_job, draft_job,
}
use rule_kiln.Queue.Table.{Table, update_where, first_created, All-update_where}
use rule_kiln.Queue.Ops.{
  create_job, update_job_status, set_mlflow_run_id, claim_next_job, claim_row, claimed, has_id,
  renew_lease, is_leased, complete_job, fail_job, failure_policy, can_retry, cannot_retry, returned,
  exhausted, recover_expired_leases, cancel_job, cancel_found, retry_job, retry_found, start_found,
  is_claimable,
}
use rule_kiln.Queue.Steps.{AutoStep, Step, Reach}

-- A running job has an owner, a lock time and a lease; any other job has none of them.
abbrev pub IsConsistent : Job → Type 0
IsConsistent j =
    (if is_running j.queue_status
      then is_some j.locked_by && is_some j.locked_at && is_some j.lease_expires_at
      else is_none j.locked_by && is_none j.locked_at && is_none j.lease_expires_at)
    ≡ true

abbrev pub AllConsistent : Table → Type 0
AllConsistent t = All IsConsistent t

-- An update whose new row is consistent whatever the old one was.
written-AllConsistent :
    (p : Job → Bool) (set : Job → Job) (t : Table)
    → ((j : Job) → IsConsistent (set j))
    → AllConsistent t
    → AllConsistent (update_where p set t)
written-AllConsistent p set t ok h = All-update_where IsConsistent p set t (λ j _ _. ok j) h

claim_row-AllConsistent :
    (worker : String) (lease_seconds now : ℕ) (t : Table) (o : Option Job)
    → AllConsistent t
    → AllConsistent (claim_row worker lease_seconds now t o).0
claim_row-AllConsistent worker l now t none h = h
claim_row-AllConsistent worker l now t (some j) h =
    written-AllConsistent (has_id j.id) (claimed worker l now) t (λ k. refl) h

failure_policy-AllConsistent :
    (id message : String) (retryable : Bool) (backoff now : ℕ) (t : Table) (o : Option Job)
    → AllConsistent t
    → AllConsistent (failure_policy id message retryable backoff now t o).0
failure_policy-AllConsistent id message retryable backoff now t none h = h
failure_policy-AllConsistent id message retryable backoff now t (some job) h =
    if_elim {A = Table × JobStatus} (λ r. AllConsistent r.0)
      (retryable && ltb job.attempt_count job.max_attempts)
      (λ _. written-AllConsistent _ _ t (λ k. refl) h)
      (λ _. written-AllConsistent _ _ t (λ k. refl) h)

cancel_found-AllConsistent :
    (t : Table) (o : Option Job) → AllConsistent t → AllConsistent (cancel_found t o)
unfolding cancel_job
cancel_found-AllConsistent t none h = h
cancel_found-AllConsistent t (some j) h =
    if_elim AllConsistent (is_terminal j.status) (λ _. h)
      (λ _. written-AllConsistent _ _ t (λ k. refl) h)

retry_found-AllConsistent :
    (now : ℕ) (t : Table) (o : Option Job) → AllConsistent t → AllConsistent (retry_found now t o)
unfolding retry_job
retry_found-AllConsistent now t none h = h
retry_found-AllConsistent now t (some j) h =
    if_elim AllConsistent (is_retryable j.status) (λ _. written-AllConsistent _ _ t (λ k. refl) h)
      (λ _. h)

start_found-AllConsistent :
    (max_attempts : ℕ) (t : Table) (o : Option Job)
    → AllConsistent t
    → AllConsistent (start_found max_attempts t o)
unfolding update_job_status
start_found-AllConsistent m t none h = h
start_found-AllConsistent m t (some j) h =
    if_elim AllConsistent (is_draft j.status)
      (λ _.
        All-update_where IsConsistent _ _ (update_where _ _ t) (λ k ok _. ok)
          (All-update_where IsConsistent _ _ t (λ k ok _. ok) h))
      (λ _. h)

AutoStep-AllConsistent : {t u : Table} → AutoStep t u → AllConsistent t → AllConsistent u
unfolding create_job update_job_status set_mlflow_run_id renew_lease complete_job fail_job
    recover_expired_leases
AutoStep-AllConsistent {t} (AutoStep.create id m now _ _) h =
    All-append IsConsistent t (new_job id m now ∷ []) h (refl, tt)
AutoStep-AllConsistent {t} (AutoStep.draft id m now _ _) h =
    All-append IsConsistent t (draft_job id m now ∷ []) h (refl, tt)
AutoStep-AllConsistent {t} (AutoStep.status id s stage message) h =
    All-update_where IsConsistent _ _ t (λ j ok _. ok) h
AutoStep-AllConsistent {t} (AutoStep.mlflow id run) h =
    All-update_where IsConsistent _ _ t (λ j ok _. ok) h
AutoStep-AllConsistent {t} (AutoStep.renew id worker l now) h =
    All-update_where IsConsistent (is_leased id worker) _ t (λ j ok owned. ground arith) h
AutoStep-AllConsistent {t} (AutoStep.complete id) h = written-AllConsistent _ _ t (λ k. refl) h
AutoStep-AllConsistent {t} (AutoStep.fail id message) h = written-AllConsistent _ _ t (λ k. refl) h
AutoStep-AllConsistent {t} (AutoStep.recover now) h =
    written-AllConsistent (cannot_retry now) exhausted (update_where (can_retry now) returned t)
      (λ k. refl) (written-AllConsistent (can_retry now) returned t (λ k. refl) h)
AutoStep-AllConsistent {t} (AutoStep.recover_return now) h =
    written-AllConsistent _ _ t (λ k. refl) h
AutoStep-AllConsistent {t} (AutoStep.recover_fail now) h = written-AllConsistent _ _ t (λ k. refl) h
AutoStep-AllConsistent {t} (AutoStep.cancel read) h = cancel_found-AllConsistent t read h

Step-AllConsistent : {t u : Table} → Step t u → AllConsistent t → AllConsistent u
unfolding claim_next_job
Step-AllConsistent (Step.auto s) h = AutoStep-AllConsistent s h
Step-AllConsistent {t} (Step.claim worker l now skip) h =
    claim_row-AllConsistent worker l now t (first_created (is_claimable now skip) t) h
Step-AllConsistent {t} (Step.policy id message retryable backoff now read) h =
    failure_policy-AllConsistent id message retryable backoff now t read h
Step-AllConsistent {t} (Step.retry now read) h = retry_found-AllConsistent now t read h
Step-AllConsistent {t} (Step.start m read) h = start_found-AllConsistent m t read h

-- In every table that the program can reach from an empty one, in any order of its operations, and
-- however long before a failure policy or a page has read what it acts on, a
-- job has an owner, a lock time and a lease if it runs, and none of them if it does not.
pub Reach-AllConsistent : {t : Table} → Reach [] t → AllConsistent t
Reach-AllConsistent Reach.here = tt
Reach-AllConsistent (Reach.next r s) = Step-AllConsistent s (Reach-AllConsistent r)
