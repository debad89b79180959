-- ===== src/Queue/Hazards.antt =====
-- Sequences of queue operations whose outcome the code's messages and pages do not announce.
use rule_kiln.Prelude.{
  ℕ, ◌+◌, ◌≡◌, ◌≤◌, ◌<◌, refl, sym, ◌∙◌, Bool, true, false, none, some, [], ◌∷◌, ◌++◌, String,
  arith, str_eq, eq_iff, str_eq_self, ltb, le→leb, All,
}
use rule_kiln.Queue.Job.{Job, JobStatus, QueueStatus, is_terminal, draft_job}
use rule_kiln.Queue.Table.{Table, first_created}
use rule_kiln.Queue.Keys.{get_job-update_where}
use rule_kiln.Queue.Policy.{Outcome, apply_job_failure_policy-Outcome}
use rule_kiln.Queue.Ops.{
  get_job, create_job, claim_next_job, claimed, is_claimable, cancel_from_ui, cancel_job, failed,
  apply_job_failure_policy, seconds,
}

first_created-snoc :
    (p : Job → Bool) (t : Table) (d : Job)
    → All (λ k. p k ≡ false) t
    → p d ≡ true
    → first_created p (t ++ d ∷ []) ≡ some d
unfolding first_created
first_created-snoc p [] d h e = rw e
first_created-snoc p (k ∷ t) d h e = rw (h.0, first_created-snoc p t d h.1 e)

get_job-snoc : (t : Table) (d : Job) → get_job d.id t ≡ none → get_job d.id (t ++ d ∷ []) ≡ some d
unfolding get_job
get_job-snoc [] d e = rw (str_eq_self d.id)
get_job-snoc (k ∷ t) d e = ground (arith, get_job-snoc t d)

-- A draft that the preview page stored is claimed by a worker as soon as no other job is due and
-- free, before the operator has submitted it: a claim does not look at `status`.
pub draft_is_claimed :
    (id worker : String) (max_attempts created later lease_seconds : ℕ) (skip : Job → Bool)
    (t : Table)
    → get_job id t ≡ none
    → All (λ k. is_claimable later skip k ≡ false) t
    → created ≤ later
    → skip (draft_job id max_attempts created) ≡ false
    → (claim_next_job worker lease_seconds later skip
        (create_job (draft_job id max_attempts created) t)).1
      ≡ some (claimed worker lease_seconds later (draft_job id max_attempts created))
unfolding claim_next_job create_job
draft_is_claimed id worker m c later l skip t fresh idle due free =
    let d = draft_job id m c in
    let p = is_claimable later skip in
    let chosen : first_created p (t ++ d ∷ []) ≡ some d =
      first_created-snoc p t d idle (rw (le→leb c later due, free)) in
    rw chosen (
      get_job-update_where id id (claimed worker l later) (t ++ d ∷ []) (λ _. refl)
      ∙ rw (str_eq_self id, get_job-snoc t d fresh))

get_job-id : (id : String) (t : Table) (j : Job) → get_job id t ≡ some j → j.id ≡ id
unfolding get_job
get_job-id id [] j e = cc
get_job-id id (k ∷ t) j e = ground (arith, eq_iff k.id id, get_job-id id t j)

get_job-cancel_from_ui :
    (id : String) (t : Table) (j : Job)
    → get_job id t ≡ some j
    → is_terminal j.status ≡ false
    → get_job id (cancel_from_ui id t)
      ≡ some (failed JobStatus.failed_terminal "Cancelled by operator." j)
unfolding cancel_from_ui cancel_job
get_job-cancel_from_ui id t j e live =
    let same : str_eq id j.id ≡ true = (eq_iff id j.id).1 (sym (get_job-id id t j e)) in
    rw (e, live)
      (get_job-update_where id j.id (failed JobStatus.failed_terminal "Cancelled by operator.") t
          (λ _. refl)
        ∙ rw (same, e))

-- A job that the operator cancelled while it ran is queued again when its worker then reports a
-- retryable failure and an attempt is left: the failure policy does not look at what it overwrites.
pub cancelled_job_is_queued_again :
    (id message : String) (backoff now : ℕ) (t : Table) (j : Job)
    → get_job id t ≡ some j
    → is_terminal j.status ≡ false
    → j.attempt_count < j.max_attempts
    → (j' : Job) × (get_job id
          (apply_job_failure_policy id message true backoff now (cancel_from_ui id t)).0
        ≡ some j')
      × (j'.queue_status ≡ QueueStatus.pending)
cancelled_job_is_queued_again id message backoff now t j e live room =
    let stopped = failed JobStatus.failed_terminal "Cancelled by operator." j in
    let u = cancel_from_ui id t in
    let left : ltb j.attempt_count j.max_attempts ≡ true = ground arith in
    let outcome : Outcome id message true (now + seconds backoff) u stopped true
        (apply_job_failure_policy id message true backoff now u) =
      rw left at (
        apply_job_failure_policy-Outcome id message true backoff now u stopped
          (get_job-cancel_from_ui id t j e live)) in
    (outcome.0, outcome.1, outcome.7.0)
