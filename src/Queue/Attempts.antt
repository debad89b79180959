-- ===== src/Queue/Attempts.antt =====
-- The retry cap: how often a job is started in the runs of Queue/Steps.
use rule_kiln.Prelude.{
  ℕ, ◌≡◌, ◌≤◌, ◌<◌, refl, Bool, true, ◌&&◌, Option, none, some, [], ◌∷◌, String, arith, ltb, All,
  ◌++◌, All-append, All-append_left, All-append_right, All-imp, All-zip, and-eq_true, if_elim,
  ltb→lt,
}
use rule_kiln.Queue.Job.{Job, JobStatus, is_pending, is_terminal, new_job, draft_job}
use rule_kiln.Queue.Table.{
  Table, update_where, first_created, All-update_where, All-update_where_to,
}
use rule_kiln.Queue.Keys.{
  IsKeyed, IsKeyed-update_where, IsKeyed-create_job, get_job-first_created, get_job_unique,
  first_created-passes, OnSome,
}
use rule_kiln.Queue.Ops.{
  create_job, get_job, update_job_status, set_mlflow_run_id, claim_next_job, claim_row, claimed,
  is_claimable, has_id, renew_lease, complete_job, fail_job, failure_policy, can_retry, backed_off,
  cannot_retry, returned, exhausted, recover_expired_leases, cancel_job, cancel_found,
}
use rule_kiln.Queue.Steps.{AutoStep, Reads, AutoRun}
use rule_kiln.Queue.Reads.{
  IsAt, Holds, Holds-Still, Holds-get_job, AutoStep-Still, failure_policy-Still,
  All-Holds-claim_next_job,
}

-- A job was started at most `max_attempts` times, and less often than that if it waits.
pub record InBudget (j : Job) : Type 0 where
  pub started : j.attempt_count ≤ j.max_attempts
  pub waiting : is_pending j.queue_status ≡ true → j.attempt_count < j.max_attempts

-- Distinct ids, and every job in its budget.
pub record IsKept (t : Table) : Type 0 where
  pub keyed : IsKeyed t
  pub in_budget : All InBudget t

-- An update by id that keeps a job's cap and its number of attempts, and does not queue it.
released-IsKept :
    (p : Job → Bool) (set : Job → Job) (t : Table)
    → ((j : Job) → (set j).id ≡ j.id)
    → ((j : Job) → InBudget j → p j ≡ true → InBudget (set j))
    → IsKept t
    → IsKept (update_where p set t)
released-IsKept p set t same keep h = record {
  keyed = IsKeyed-update_where p set t same h.keyed;
  in_budget = All-update_where InBudget p set t keep h.in_budget;
}

created-IsKept :
    (j : Job) (t : Table) → InBudget j → get_job j.id t ≡ none → IsKept t → IsKept (create_job j t)
unfolding create_job
created-IsKept j t ok fresh h = record {
  keyed = IsKeyed-create_job j t fresh h.keyed;
  in_budget = All-append InBudget t (j ∷ []) h.in_budget (ok, tt);
}

-- A claim takes a pending row, so the attempt that it counts is within the cap.
claim_row-IsKept :
    (worker : String) (l now : ℕ) (p : Job → Bool) (t : Table) (o : Option Job)
    → ((j : Job) → p j ≡ true → is_pending j.queue_status ≡ true)
    → OnSome (λ j. get_job j.id t ≡ some j) o
    → OnSome (λ j. p j ≡ true) o
    → IsKept t
    → IsKept (claim_row worker l now t o).0
claim_row-IsKept worker l now p t none pending found passes h = h
claim_row-IsKept worker l now p t (some j) pending found passes h = record {
  keyed = IsKeyed-update_where _ _ t (λ k. refl) h.keyed;
  in_budget =
      All-update_where_to (λ k. InBudget k × (has_id j.id k ≡ true → k ≡ j)) InBudget (has_id j.id)
        (claimed worker l now) t
        (λ k (ok, only) same.
          let waits : is_pending k.queue_status ≡ true = rw (only same) (pending j passes) in
          record { started = omega (arith, ok.waiting waits); waiting = λ runs. cc })
        (λ k (ok, only) other. ok)
        (All-zip _ _ t h.in_budget (get_job_unique j.id t j h.keyed found));
}

failure_policy-IsKept :
    (id message : String) (retryable : Bool) (backoff now : ℕ) (t : Table) (o : Option Job)
    → IsKept t
    → OnSome (λ j. All (λ k. has_id id k ≡ true → IsAt j k) t) o
    → IsKept (failure_policy id message retryable backoff now t o).0
failure_policy-IsKept id message retryable backoff now t none h only = h
failure_policy-IsKept id message retryable backoff now t (some job) h only =
    if_elim {A = Table × JobStatus} (λ r. IsKept r.0)
      (retryable && ltb job.attempt_count job.max_attempts)
      (λ room. record {
        keyed = IsKeyed-update_where _ _ t (λ k. refl) h.keyed;
        in_budget =
            All-update_where_to (λ k. InBudget k × (has_id id k ≡ true → IsAt job k)) InBudget
              (has_id id) (backed_off message backoff now) t
              (λ k (ok, same) this. record {
                started = ok.started;
                waiting = λ _.
                    rw ((same this).0, (same this).1)
                      (ltb→lt _ _
                        (and-eq_true retryable (ltb job.attempt_count job.max_attempts) room).1);
              })
              (λ k (ok, same) other. ok) (All-zip _ _ t h.in_budget only);
      })
      (λ _.
        released-IsKept _ _ t (λ k. refl)
          (λ k ok this. record { started = ok.started; waiting = λ waits. cc }) h)

cancel_found-IsKept : (t : Table) (o : Option Job) → IsKept t → IsKept (cancel_found t o)
unfolding cancel_job
cancel_found-IsKept t none h = h
cancel_found-IsKept t (some j) h =
    if_elim IsKept (is_terminal j.status) (λ _. h)
      (λ _.
        released-IsKept _ _ t (λ k. refl)
          (λ k ok _. record { started = ok.started; waiting = λ waits. cc }) h)

AutoStep-IsKept : {t u : Table} → AutoStep t u → IsKept t → IsKept u
unfolding update_job_status set_mlflow_run_id renew_lease complete_job fail_job
    recover_expired_leases
AutoStep-IsKept {t} (AutoStep.create id m now cap fresh) h =
    created-IsKept (new_job id m now) t (record { started = omega arith; waiting = λ _. cap }) fresh
      h
AutoStep-IsKept {t} (AutoStep.draft id m now cap fresh) h =
    created-IsKept (draft_job id m now) t (record { started = omega arith; waiting = λ _. cap })
      fresh h
AutoStep-IsKept {t} (AutoStep.status id s stage message) h =
    released-IsKept _ _ t (λ k. refl)
      (λ k ok _. record { started = ok.started; waiting = ok.waiting }) h
AutoStep-IsKept {t} (AutoStep.mlflow id run) h =
    released-IsKept _ _ t (λ k. refl)
      (λ k ok _. record { started = ok.started; waiting = ok.waiting }) h
AutoStep-IsKept {t} (AutoStep.renew id worker l now) h =
    released-IsKept _ _ t (λ k. refl)
      (λ k ok _. record { started = ok.started; waiting = ok.waiting }) h
AutoStep-IsKept {t} (AutoStep.complete id) h =
    released-IsKept _ _ t (λ k. refl)
      (λ k ok _. record { started = ok.started; waiting = λ waits. cc }) h
AutoStep-IsKept {t} (AutoStep.fail id message) h =
    released-IsKept _ _ t (λ k. refl)
      (λ k ok _. record { started = ok.started; waiting = λ waits. cc }) h
AutoStep-IsKept {t} (AutoStep.recover now) h =
    released-IsKept (cannot_retry now) exhausted (update_where (can_retry now) returned t)
      (λ k. refl) (λ k ok _. record { started = ok.started; waiting = λ waits. cc })
      (released-IsKept (can_retry now) returned t (λ k. refl)
        (λ k ok room. record { started = ok.started; waiting = λ _. ground arith }) h)
AutoStep-IsKept {t} (AutoStep.recover_return now) h =
    released-IsKept (can_retry now) returned t (λ k. refl)
      (λ k ok room. record { started = ok.started; waiting = λ _. ground arith }) h
AutoStep-IsKept {t} (AutoStep.recover_fail now) h =
    released-IsKept (cannot_retry now) exhausted t (λ k. refl)
      (λ k ok room. record { started = ok.started; waiting = λ waits. cc }) h
AutoStep-IsKept {t} (AutoStep.cancel read) h = cancel_found-IsKept t read h

claim_next_job-IsKept :
    (worker : String) (l now : ℕ) (skip : Job → Bool) (t : Table)
    → IsKept t
    → IsKept (claim_next_job worker l now skip t).0
unfolding claim_next_job
claim_next_job-IsKept worker l now skip t h =
    let p = is_claimable now skip in
    claim_row-IsKept worker l now p t (first_created p t)
      (λ j ok. (and-eq_true _ _ (and-eq_true _ _ ok).0).0) (get_job-first_created p t h.keyed)
      (first_created-passes p t) h

-- What a policy has read still tells the attempts of every row with the id.
Holds-rows :
    (id : String) (t : Table) (o : Option Job)
    → IsKeyed t
    → Holds t (id, o)
    → OnSome (λ j. All (λ k. has_id id k ≡ true → IsAt j k) t) o
Holds-rows id t none keyed h = tt
Holds-rows id t (some j) keyed (k, found, at) =
    All-imp t (λ m only same. rw (only same) at) (get_job_unique id t k keyed found)

AutoRun-IsKept_reads :
    {u : Table} {reads : Reads} → AutoRun u reads → IsKept u × All (Holds u) reads
AutoRun-IsKept_reads AutoRun.here = (record { keyed = tt; in_budget = tt }, tt)
AutoRun-IsKept_reads {u} {reads} (AutoRun.next {t} r s) =
    let ih = AutoRun-IsKept_reads r in
    (AutoStep-IsKept s ih.0, All-imp reads (λ x. Holds-Still t u x (AutoStep-Still s x.0)) ih.1)
AutoRun-IsKept_reads (AutoRun.claim {t} {reads} r worker l now skip apart) =
    let ih = AutoRun-IsKept_reads r in
    (
      claim_next_job-IsKept worker l now skip t ih.0,
      All-Holds-claim_next_job worker l now skip t reads apart ih.1,
    )
AutoRun-IsKept_reads (AutoRun.read {t} r id) =
    let ih = AutoRun-IsKept_reads r in (ih.0, (Holds-get_job id t, ih.1))
AutoRun-IsKept_reads (AutoRun.write {t} before after id job r message retryable backoff now) =
    let ih = AutoRun-IsKept_reads r in
    let here = All-append_right (Holds t) before _ ih.1 in
    let left = All-append (Holds t) before after (All-append_left (Holds t) before _ ih.1) here.1 in
    (
      failure_policy-IsKept id message retryable backoff now t job ih.0
          (Holds-rows id t job ih.0.keyed here.0),
      All-imp (before ++ after)
          (λ x.
            Holds-Still t (failure_policy id message retryable backoff now t job).0 x
              (failure_policy-Still id message retryable backoff now t job x.0))
          left,
    )

-- From an empty table, whatever the API, the workers, the pipeline and the cancel page do, in any
-- order of their steps in which no claim takes a job between a failure policy's read of it and that
-- policy's write, no job is started more often than its `max_attempts`, a job that waits has an
-- attempt left, and no two jobs share an id.
pub AutoRun-IsKept : {t : Table} {reads : Reads} → AutoRun t reads → IsKept t
AutoRun-IsKept r = (AutoRun-IsKept_reads r).0
