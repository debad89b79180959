-- ===== src/Workflow/Ends.antt =====
-- The workflow of `dbos_workflow.py` comes to its end once a poll finds the batch done.
use mathlib.Core.Path.{fun_ext}
use rule_kiln.Prelude.{
  ℕ, zero, suc, ◌≤◌, ◌<◌, ◌+◌, true, false, List, [], ◌∷◌, ◌++◌, ◌≡◌, ◌≢◌, refl, sym, ap, subst,
  ◌∙◌, append_assoc, if◌then◌else◌, if_elim, arith, Bool-cases, inl, inr,
}
use rule_kiln.Workflow.Sequence.{
  Event, validate_project, compile_prompts, submit_extraction_batch, wait, poll,
  collect_extraction_batch, evaluate_baseline, evaluate_dbscan, evaluate_hdbscan,
  aggregate_evaluation_report, extraction_batch_enabled, poll_extraction_batch_once, Outcome,
  finished, raised, out_of_fuel, and_then, Surroundings, run_step, poll_loop, run_batch,
  run_evaluation, run_stage_sequence,
}

-- The steps of `k + 1` rounds of the loop.
unfoldable pub rounds : ℕ → List Event
rounds zero = wait ∷ poll ∷ []
rounds (suc k) = wait ∷ poll ∷ rounds k

pub plus_zero : (n : ℕ) → n + 0 ≡ n
plus_zero n = omega arith

pub zero_plus : (n : ℕ) → 0 + n ≡ n
zero_plus n = omega arith

pub plus_suc : (n k : ℕ) → n + suc k ≡ suc n + k
plus_suc n k = omega arith

-- The loop stops at the `k`-th poll from here if that is the first that finds the batch done.
pub loop-rounds :
    (w : Surroundings) (k fuel n : ℕ) (t : List Event)
    → k < fuel
    → ((i : ℕ) → i < k → poll_extraction_batch_once (w.polls (n + i)) ≡ false)
    → poll_extraction_batch_once (w.polls (n + k)) ≡ true
    → poll_loop fuel w n t ≡ finished (t ++ rounds k)
unfolding poll_loop rounds
loop-rounds w k zero n t lt before done = absurd (omega arith)
loop-rounds w zero (suc fuel) n t lt before done =
    rw (subst (λ m. poll_extraction_batch_once (w.polls m) ≡ true) (plus_zero n) done) refl
loop-rounds w (suc k) (suc fuel) n t lt before done =
    rw
      (subst (λ m. poll_extraction_batch_once (w.polls m) ≡ false) (plus_zero n)
        (before 0 (omega arith)))
      (loop-rounds w k fuel (suc n) (t ++ wait ∷ poll ∷ []) (omega arith)
          (λ i h.
            subst (λ m. poll_extraction_batch_once (w.polls m) ≡ false) (plus_suc n i)
              (before (suc i) (omega arith)))
          (subst (λ m. poll_extraction_batch_once (w.polls m) ≡ true) (plus_suc n k) done)
        ∙ ap finished (append_assoc t (wait ∷ poll ∷ []) (rounds k)))

-- The first poll from the `n`-th on that finds the batch done.
abbrev pub IsFirstDone : Surroundings → ℕ → ℕ → Type 0
IsFirstDone w n j =
    (poll_extraction_batch_once (w.polls (n + j)) ≡ true)
    × ((i : ℕ) → i < j → poll_extraction_batch_once (w.polls (n + i)) ≡ false)

pub earlier :
    (w : Surroundings) (n j : ℕ)
    → poll_extraction_batch_once (w.polls (n + 0)) ≡ false
    → ((i : ℕ) → i < j → poll_extraction_batch_once (w.polls (suc n + i)) ≡ false)
    → (i : ℕ) → i < suc j
    → poll_extraction_batch_once (w.polls (n + i)) ≡ false
earlier w n j now before zero h = now
earlier w n j now before (suc i) h =
    subst (λ m. poll_extraction_batch_once (w.polls m) ≡ false) (sym (plus_suc n i))
      (before i (omega arith))

pub first_done :
    (w : Surroundings) (n k : ℕ)
    → poll_extraction_batch_once (w.polls (n + k)) ≡ true
    → (j : ℕ) × (j ≤ k) × IsFirstDone w n j
first_done w n zero done = (0, omega arith, (done, λ i h. absurd (omega arith)))
first_done w n (suc k) done = elim (Bool-cases (poll_extraction_batch_once (w.polls (n + 0)))) [
  | inl now ↦ (0, omega arith, (now, λ i h. absurd (omega arith)))
  | inr later ↦
      let (j, le, (d, before)) =
        first_done w (suc n) k
          (subst (λ m. poll_extraction_batch_once (w.polls m) ≡ true) (plus_suc n k) done) in
      (
        suc j,
        omega arith,
        (
          subst (λ m. poll_extraction_batch_once (w.polls m) ≡ true) (sym (plus_suc n j)) d,
          earlier w n j later before,
        ),
      )
]

pub step_total : (w : Surroundings) (e : Event) (t : List Event) → run_step w e t ≢ out_of_fuel
unfolding run_step
step_total w e t = ground arith

pub and_then_total :
    (m : Outcome) (k : List Event → Outcome)
    → m ≢ out_of_fuel
    → ((t : List Event) → k t ≢ out_of_fuel)
    → and_then m k ≢ out_of_fuel
and_then_total (finished t) k h f = f t
and_then_total (raised t) k h f = λ e. cc
and_then_total out_of_fuel k h f = λ e. h refl

pub evaluation_total : (w : Surroundings) (t : List Event) → run_evaluation w t ≢ out_of_fuel
unfolding run_evaluation
evaluation_total w t = and_then_total _ _ (step_total w evaluate_baseline t) (λ t1.
    and_then_total _ _ (step_total w evaluate_dbscan t1) (λ t2.
      and_then_total _ _ (step_total w evaluate_hdbscan t2)
        (step_total w aggregate_evaluation_report)))

-- The batch's part, once it is known which poll ends the wait.
pub batch_until : Surroundings → ℕ → List Event → Outcome
batch_until w j t =
    and_then (run_step w submit_extraction_batch t)
      λ t1. run_step w collect_extraction_batch (t1 ++ rounds j)

pub batch_until_total :
    (w : Surroundings) (j : ℕ) (t : List Event) → batch_until w j t ≢ out_of_fuel
unfolding batch_until
batch_until_total w j t =
    and_then_total _ _ (step_total w submit_extraction_batch t)
      (λ t1. step_total w collect_extraction_batch (t1 ++ rounds j))

pub run_batch-until :
    (w : Surroundings) (j fuel : ℕ) (t : List Event)
    → j < fuel
    → IsFirstDone w 0 j
    → run_batch fuel w t ≡ batch_until w j t
unfolding run_batch batch_until
run_batch-until w j fuel t lt first = after_submit (run_step w submit_extraction_batch t)
  where
    after_submit :
        (m : Outcome)
        → and_then m (λ t1. and_then (poll_loop fuel w 0 t1) (run_step w collect_extraction_batch))
          ≡ and_then m (λ t1. run_step w collect_extraction_batch (t1 ++ rounds j))
    after_submit (finished t1) = rw (loop-rounds w j fuel 0 t1 lt first.1 first.0) refl
    after_submit (raised t1) = refl
    after_submit out_of_fuel = refl

pub sequence_until : Surroundings → ℕ → Outcome
sequence_until w j = and_then (run_step w validate_project []) λ t.
    and_then
      (if extraction_batch_enabled w.batch then batch_until w j t else run_step w compile_prompts t)
      (run_evaluation w)

pub sequence_until_total : (w : Surroundings) (j : ℕ) → sequence_until w j ≢ out_of_fuel
unfolding sequence_until
sequence_until_total w j = and_then_total _ _ (step_total w validate_project []) (λ t.
    and_then_total _ _
      (if_elim (λ m. m ≢ out_of_fuel) (extraction_batch_enabled w.batch)
        (λ _. batch_until_total w j t) (λ _. step_total w compile_prompts t))
      (evaluation_total w))

pub run-until :
    (w : Surroundings) (j fuel : ℕ)
    → j < fuel
    → IsFirstDone w 0 j
    → run_stage_sequence fuel w ≡ sequence_until w j
unfolding run_stage_sequence sequence_until
run-until w j fuel lt first = rw (fun_ext (λ t. run_batch-until w j fuel t lt first)) refl

-- Once a poll finds the batch done, or asking fails, the workflow comes to its end, finished or raised:
-- one round for each poll up to that one is fuel enough, and more changes nothing.
pub run_stage_sequence_ends :
    (w : Surroundings) (k fuel : ℕ)
    → poll_extraction_batch_once (w.polls k) ≡ true
    → k < fuel
    → (run_stage_sequence fuel w ≢ out_of_fuel)
      × (run_stage_sequence fuel w ≡ run_stage_sequence (suc k) w)
run_stage_sequence_ends w k fuel done lt =
    let (j, le, first) =
      first_done w 0 k
        (subst (λ m. poll_extraction_batch_once (w.polls m) ≡ true) (sym (zero_plus k)) done) in
    let here = run-until w j fuel (omega arith) first in
    let there = run-until w j (suc k) (omega arith) first in
    (rw here (sequence_until_total w j), here ∙ sym there)
