-- ===== src/Queue/Reads.antt =====
-- What a failure policy has read stays true of the job's attempts until a claim takes the job.
use rule_kiln.Prelude.{
  ℕ, ◌≡◌, refl, ◌∙◌, Bool, ◌&&◌, Option, none, some, [], ◌∷◌, ◌++◌, String, arith, ltb, All,
  All-imp, All-zip, if_elim, if◌then◌else◌,
}
use rule_kiln.Queue.Job.{Job, JobStatus, is_terminal, new_job, draft_job}
use rule_kiln.Queue.Table.{Table, update_where, first_created}
use rule_kiln.Queue.Keys.{OnSome, get_job-update_where}
use rule_kiln.Queue.Ops.{
  create_job, get_job, update_job_status, set_mlflow_run_id, claim_next_job, is_claimable, has_id,
  claim_row, claimed, renew_lease, complete_job, fail_job, failure_policy, recover_expired_leases,
  can_retry, returned, cancel_found, cancel_job,
}
use rule_kiln.Queue.Steps.{AutoStep, Reads, IsApart}

-- Two states of a job with as many attempts, made and allowed.
abbrev pub IsAt : Job → Job → Type 0
IsAt j k = (k.attempt_count ≡ j.attempt_count) × (k.max_attempts ≡ j.max_attempts)

abbrev Found : String → Table → Job → Type 0
Found id t j = (k : Job) × (get_job id t ≡ some k) × IsAt j k

-- The job that was read is in the table, with the attempts it had.
abbrev pub Holds : Table → String × Option Job → Type 0
Holds t (id, o) = OnSome (Found id t) o

-- From one table to another, a job with an id stays, with its attempts.
abbrev pub Still : String → Table → Table → Type 0
Still id t u = (j : Job) → Found id t j → Found id u j

pub Holds-Still : (t u : Table) (r : String × Option Job) → Still r.0 t u → Holds t r → Holds u r
Holds-Still t u (id, none) still h = tt
Holds-Still t u (id, some j) still h = still j h

pub Holds-get_job : (id : String) (t : Table) → Holds t (id, get_job id t)
Holds-get_job id t = go (get_job id t) refl
  where
    go : (o : Option Job) → get_job id t ≡ o → OnSome (Found id t) o
    go none e = tt
    go (some j) e = (j, e, (refl, refl))

get_job-update :
    (id : String) (p : Job → Bool) (set : Job → Job) (t : Table) (k : Job)
    → ((j : Job) → (set j).id ≡ j.id)
    → get_job id t ≡ some k
    → get_job id (update_where p set t) ≡ some (if p k then set k else k)
unfolding get_job update_where
get_job-update id p set [] k same e = ground arith
get_job-update id p set (j ∷ t) k same e = ground (arith, same j, get_job-update id p set t k same)

-- An update that leaves the id and the attempts of each row.
update_where-Still :
    (p : Job → Bool) (set : Job → Job) (t : Table)
    → ((j : Job) → ((set j).id ≡ j.id) × IsAt j (set j))
    → (id : String) → Still id t (update_where p set t)
update_where-Still p set t same id j (k, found, at) = (
  if p k then set k else k,
  get_job-update id p set t k (λ m. (same m).0) found,
  if_elim {A = Job} (IsAt j) (p k) (λ _. ((same k).1.0 ∙ at.0, (same k).1.1 ∙ at.1)) (λ _. at),
)

create_job-Still : (new : Job) (t : Table) (id : String) → Still id t (create_job new t)
unfolding create_job get_job
create_job-Still new t id j (k, found, at) = (k, appended t found, at)
  where
    appended : (s : Table) → get_job id s ≡ some k → get_job id (s ++ new ∷ []) ≡ some k
    appended [] e = ground arith
    appended (m ∷ s) e = ground (arith, appended s)

cancel_found-Still : (t : Table) (o : Option Job) (id : String) → Still id t (cancel_found t o)
unfolding cancel_job
cancel_found-Still t none id j h = h
cancel_found-Still t (some m) id j h =
    if_elim (λ u. Found id u j) (is_terminal m.status) (λ _. h)
      (λ _. update_where-Still _ _ t (λ _. (refl, (refl, refl))) id j h)

pub failure_policy-Still :
    (id message : String) (retryable : Bool) (backoff now : ℕ) (t : Table) (o : Option Job)
    (other : String)
    → Still other t (failure_policy id message retryable backoff now t o).0
failure_policy-Still id message retryable backoff now t none other j h = h
failure_policy-Still id message retryable backoff now t (some job) other j h =
    if_elim {A = Table × JobStatus} (λ r. Found other r.0 j)
      (retryable && ltb job.attempt_count job.max_attempts)
      (λ _. update_where-Still _ _ t (λ _. (refl, (refl, refl))) other j h)
      (λ _. update_where-Still _ _ t (λ _. (refl, (refl, refl))) other j h)

pub AutoStep-Still : {t u : Table} → AutoStep t u → (id : String) → Still id t u
unfolding update_job_status set_mlflow_run_id renew_lease complete_job fail_job
    recover_expired_leases
AutoStep-Still {t} (AutoStep.create id m now _ _) = create_job-Still (new_job id m now) t
AutoStep-Still {t} (AutoStep.draft id m now _ _) = create_job-Still (draft_job id m now) t
AutoStep-Still {t} (AutoStep.status id s stage message) =
    update_where-Still _ _ t (λ _. (refl, (refl, refl)))
AutoStep-Still {t} (AutoStep.mlflow id run) = update_where-Still _ _ t (λ _. (refl, (refl, refl)))
AutoStep-Still {t} (AutoStep.renew id worker l now) =
    update_where-Still _ _ t (λ _. (refl, (refl, refl)))
AutoStep-Still {t} (AutoStep.complete id) = update_where-Still _ _ t (λ _. (refl, (refl, refl)))
AutoStep-Still {t} (AutoStep.fail id message) = update_where-Still _ _ t (λ _. (refl, (refl, refl)))
AutoStep-Still {t} (AutoStep.recover now) = λ id j h.
    update_where-Still _ _ (update_where (can_retry now) returned t) (λ _. (refl, (refl, refl))) id
      j (update_where-Still _ _ t (λ _. (refl, (refl, refl))) id j h)
AutoStep-Still {t} (AutoStep.recover_return now) =
    update_where-Still _ _ t (λ _. (refl, (refl, refl)))
AutoStep-Still {t} (AutoStep.recover_fail now) =
    update_where-Still _ _ t (λ _. (refl, (refl, refl)))
AutoStep-Still {t} (AutoStep.cancel read) = cancel_found-Still t read

-- A claim of another job.
pub All-Holds-claim_next_job :
    (worker : String) (l now : ℕ) (skip : Job → Bool) (t : Table) (reads : Reads)
    → IsApart reads (first_created (is_claimable now skip) t)
    → All (Holds t) reads
    → All (Holds (claim_next_job worker l now skip t).0) reads
unfolding claim_next_job
All-Holds-claim_next_job worker l now skip t reads = go (first_created (is_claimable now skip) t)
  where
    go :
        (o : Option Job)
        → IsApart reads o
        → All (Holds t) reads
        → All (Holds (claim_row worker l now t o).0) reads
    go none apart h = h
    go (some m) apart h =
        let u = update_where (has_id m.id) (claimed worker l now) t in
        All-imp reads
          (λ r (other, holds).
            Holds-Still t u r
              (λ j (k, found, at). (
                k,
                get_job-update_where r.0 m.id (claimed worker l now) t (λ _. refl)
                    ∙ rw (other, found),
                at,
              ))
              holds)
          (All-zip _ _ reads apart h)
