-- ===== src/Queue/Steps.antt =====
-- Every way in which the program changes the table of jobs, as step relations: the API, the
-- operator's pages, the workers and the pipeline, in any order and with any clock. A handler that
-- reads a row and later updates it by id alone is given what it read, at whatever time it did; the
-- two updates of a recovery are steps of their own too.
use rule_kiln.Prelude.{
  ℕ, ◌<◌, ◌≡◌, Bool, false, Option, none, some, List, [], ◌∷◌, ◌++◌, String, str_eq, All,
}
use rule_kiln.Queue.Job.{Job, JobStatus, new_job, draft_job}
use rule_kiln.Queue.Table.{Table, update_where, first_created}
use rule_kiln.Queue.Ops.{
  create_job, get_job, update_job_status, set_mlflow_run_id, claim_next_job, is_claimable,
  renew_lease, complete_job, fail_job, failure_policy, recover_expired_leases, can_retry, returned,
  cannot_retry, exhausted, cancel_found, retry_found, start_found,
}

-- What the queue does by itself, and what the API and the cancel page do. A new job's id is a fresh
-- primary key.
pub data AutoStep (t : Table) : Table → Type 0 where
  create :
      (id : String) (max_attempts now : ℕ)
      → 0 < max_attempts
      → get_job id t ≡ none
      → AutoStep t (create_job (new_job id max_attempts now) t)
  draft :
      (id : String) (max_attempts now : ℕ)
      → 0 < max_attempts
      → get_job id t ≡ none
      → AutoStep t (create_job (draft_job id max_attempts now) t)
  status :
      (id : String) (s : JobStatus) (stage message : Option String)
      → AutoStep t (update_job_status id s stage message t)
  mlflow : (id run : String) → AutoStep t (set_mlflow_run_id id run t)
  renew :
      (id worker : String) (lease_seconds now : ℕ)
      → AutoStep t (renew_lease id worker lease_seconds now t)
  complete : (id : String) → AutoStep t (complete_job id t)
  fail : (id message : String) → AutoStep t (fail_job id message t)
  recover : (now : ℕ) → AutoStep t (recover_expired_leases now t).0
  recover_return : (now : ℕ) → AutoStep t (update_where (can_retry now) returned t)
  recover_fail : (now : ℕ) → AutoStep t (update_where (cannot_retry now) exhausted t)
  cancel : (read : Option Job) → AutoStep t (cancel_found t read)

-- Those, the claims, the writes of a failure policy, and the two pages that give a job a new lease of
-- life. Each write goes by what its handler has read, which any number of steps may have overtaken.
pub data Step (t : Table) : Table → Type 0 where
  auto : {u : Table} → AutoStep t u → Step t u
  claim :
      (worker : String) (lease_seconds now : ℕ) (skip : Job → Bool)
      → Step t (claim_next_job worker lease_seconds now skip t).0
  policy :
      (id message : String) (retryable : Bool) (backoff now : ℕ) (read : Option Job)
      → Step t (failure_policy id message retryable backoff now t read).0
  retry : (now : ℕ) (read : Option Job) → Step t (retry_found now t read)
  start : (max_attempts : ℕ) (read : Option Job) → Step t (start_found max_attempts t read)

pub data Reach (s : Table) : Table → Type 0 where
  here : Reach s s
  next : {t u : Table} → Reach s t → Step t u → Reach s u

-- What failure policies have read and not yet acted on: the id, and what `get_job` returned.
abbrev pub Reads : Type 0
Reads = List (String × Option Job)

-- A claim that takes none of the jobs that a failure policy has read and not yet written.
abbrev pub IsApart : Reads → Option Job → Type 0
IsApart reads none = Unit
IsApart reads (some j) = All (λ r. str_eq r.0 j.id ≡ false) reads

-- The runs from an empty table in which a failure policy reads and writes in two steps, with any steps
-- of others between them but a claim of its job.
pub data AutoRun : Table → Reads → Type 0 where
  here : AutoRun [] []
  next : {t u : Table} {reads : Reads} → AutoRun t reads → AutoStep t u → AutoRun u reads
  claim :
      {t : Table} {reads : Reads}
      → AutoRun t reads
      → (worker : String) (lease_seconds now : ℕ) (skip : Job → Bool)
      → IsApart reads (first_created (is_claimable now skip) t)
      → AutoRun (claim_next_job worker lease_seconds now skip t).0 reads
  read :
      {t : Table} {reads : Reads}
      → AutoRun t reads
      → (id : String) → AutoRun t ((id, get_job id t) ∷ reads)
  write :
      {t : Table} (before after : Reads) (id : String) (job : Option Job)
      → AutoRun t (before ++ (id, job) ∷ after)
      → (message : String) (retryable : Bool) (backoff now : ℕ)
      → AutoRun (failure_policy id message retryable backoff now t job).0 (before ++ after)
