-- ===== src/Queue/Claim.antt =====
-- What `claim_next_job` promises: the oldest due job, to one worker, and nobody else's job.
use rule_kiln.Prelude.{
  ℕ, ◌≡◌, refl, ap, ◌∙◌, Bool, true, false, Option, none, some, String, arith, str_eq, eq_iff,
  str_eq_self, All, All-imp, ◌+◌, ◌≤◌, if◌then◌else◌, Bool-cases, inl, inr,
}
use mathlib.Core.Option
use rule_kiln.Queue.Job.{Job, QueueStatus, is_pending, is_running}
use rule_kiln.Queue.Table.{Table, update_where, first_created, IsChosen, first_created-IsChosen}
use rule_kiln.Queue.Ops.{get_job, has_id, claim_next_job, claim_row, claimed, is_claimable, seconds}
use rule_kiln.Queue.Keys.{IsKeyed, OnSome, get_job-update_where, get_job-first_created}

clash : (s : QueueStatus) → is_running s ≡ true → is_pending s ≡ true → ⊥
clash s r p = ground arith

module _ (worker : String) (lease_seconds now : ℕ) (skip : Job → Bool) (t : Table) where
  -- Pending, due and free.
  abbrev pub IsDue : Job → Type 0
  IsDue j = (j.queue_status ≡ QueueStatus.pending) × (j.next_run_at ≤ now) × (skip j ≡ false)

  -- What a claim makes of a job.
  abbrev pub IsHeld : Job → Job → Type 0
  IsHeld old j =
      (j.queue_status ≡ QueueStatus.running)
      × (j.locked_by ≡ some worker)
      × (j.lease_expires_at ≡ some (now + seconds lease_seconds))
      × (j.attempt_count ≡ old.attempt_count + 1)

  is_pending-eq : (s : QueueStatus) → is_pending s ≡ true → s ≡ QueueStatus.pending
  is_pending-eq s h = ground arith

  claimable-IsDue : (j : Job) → is_claimable now skip j ≡ true → IsDue j
  claimable-IsDue j h = (is_pending-eq j.queue_status (ground arith), ground arith, ground arith)

  IsDue-claimable : (j : Job) → IsDue j → is_claimable now skip j ≡ true
  IsDue-claimable j due =
      let pending : is_pending j.queue_status ≡ true = ap is_pending due.0 in
      ground (arith, pending, due.1, due.2)

  not_claimable-IsDue : (j : Job) → is_claimable now skip j ≡ false → ¬ IsDue j
  not_claimable-IsDue j h due = let claimable = IsDue-claimable j due in cc

  -- A claim of nothing leaves the table alone, and no row is due. A claim of a job takes the due row
  -- that was created first, and changes only that row.
  abbrev pub Claims : Table × Option Job → Type 0
  Claims (u, none) = (u ≡ t) × All (λ k. ¬ (IsDue k)) t
  Claims (u, some j) =
      (old : Job) × (get_job old.id t ≡ some old)
      × IsDue old
      × IsHeld old j
      × All (λ k. IsDue k → old.created_at ≤ k.created_at) t
      × (j ≡ claimed worker lease_seconds now old)
      × ((k : String) → get_job k u ≡ (if str_eq k old.id then some j else get_job k t))

  claim_row-Claims :
      (o : Option Job)
      → IsChosen (is_claimable now skip) t o
      → OnSome (λ j. get_job j.id t ≡ some j) o
      → Claims (claim_row worker lease_seconds now t o)
  claim_row-Claims none none_due found = (refl, All-imp t not_claimable-IsDue none_due)
  claim_row-Claims (some j) first found =
      let new = claimed worker lease_seconds now j in
      let law = λ (k : String).
        get_job-update_where k j.id (claimed worker lease_seconds now) t (λ _. refl) in
      let read : get_job j.id (update_where (has_id j.id) (claimed worker lease_seconds now) t)
          ≡ some new =
        law j.id ∙ rw (str_eq_self j.id, found) in
      rw read (
        j,
        found,
        claimable-IsDue j first.0,
        (refl, refl, refl, refl),
        All-imp t (λ k later due. later (IsDue-claimable k due)) first.1,
        refl,
        λ k. law k ∙ only k,
      )
    where
      only :
          (k : String)
          → (if str_eq k j.id
              then Option.map (claimed worker lease_seconds now) (get_job k t)
              else get_job k t)
            ≡ (if str_eq k j.id then some (claimed worker lease_seconds now j) else get_job k t)
      only k = elim (Bool-cases (str_eq k j.id)) [
        | inl same ↦ rw (same, (eq_iff k j.id).0 same, found)
        | inr other ↦ rw other
      ]

  -- A claim takes the oldest due job that no other transaction has locked and changes no other row;
  -- it takes nothing only if there is no such job.
  pub claim_next_job-Claims : IsKeyed t → Claims (claim_next_job worker lease_seconds now skip t)
  unfolding claim_next_job
  claim_next_job-Claims keyed =
      let p = is_claimable now skip in
      claim_row-Claims (first_created p t) (first_created-IsChosen p t)
        (get_job-first_created p t keyed)

  -- A claim leaves a job that is running as it is: two workers never hold one job by claims alone.
  pub claim_next_job-running :
      (id : String) (j : Job)
      → IsKeyed t
      → get_job id t ≡ some j
      → is_running j.queue_status ≡ true
      → get_job id (claim_next_job worker lease_seconds now skip t).0 ≡ some j
  claim_next_job-running id j keyed e runs =
      go (claim_next_job worker lease_seconds now skip t) (claim_next_job-Claims keyed)
    where
      go : (r : Table × Option Job) → Claims r → get_job id r.0 ≡ some j
      go (u, none) (same, _) = rw same e
      go (u, some new) (old, found, due, _, _, _, law) = elim (Bool-cases (str_eq id old.id)) [
        | inl same ↦
            let e' : get_job old.id t ≡ some j = rw (← (eq_iff id old.id).0 same) e in
            let waits : is_pending old.queue_status ≡ true = ap is_pending due.0 in
            let one : old ≡ j = cc in absurd (clash j.queue_status runs (rw one at waits))
        | inr other ↦ law id ∙ rw other e
      ]
