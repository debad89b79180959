-- ===== src/Workflow/Finished.antt =====
-- What a finished run of the workflow has done: its steps, each once and in their order.

use rule_kiln.Prelude.{
  ℕ, zero, suc, Bool, true, false, List, [], ◌∷◌, ◌++◌, ◌≡◌, ◌≢◌, refl, sym, ap, subst, ◌∙◌,
  append_assoc, if◌then◌else◌, arith, Bool-cases, inl, inr, ◌⊎◌,
}
use rule_kiln.Workflow.Sequence.{
  Event, validate_project, compile_prompts, submit_extraction_batch, wait, poll,
  collect_extraction_batch, evaluate_baseline, evaluate_dbscan, evaluate_hdbscan,
  aggregate_evaluation_report, extraction_batch_enabled, poll_extraction_batch_once, Outcome,
  finished, raised, out_of_fuel, and_then, Surroundings, run_step, poll_loop, run_batch,
  run_evaluation, run_stage_sequence,
}
use rule_kiln.Workflow.Ends.{rounds, plus_zero, plus_suc, IsFirstDone, earlier}

abbrev evaluations : List Event
evaluations =
    evaluate_baseline ∷ evaluate_dbscan ∷ evaluate_hdbscan ∷ aggregate_evaluation_report ∷ []

-- What a finished workflow has done, where it waited for `k + 1` polls of a batch.
unfoldable pub steps_of : Bool → ℕ → List Event
unfolding rounds
steps_of enabled k =
    (validate_project
      ∷ (if enabled
          then submit_extraction_batch ∷ (rounds k ++ collect_extraction_batch ∷ [])
          else compile_prompts ∷ []))
    ++ evaluate_baseline ∷ evaluate_dbscan ∷ evaluate_hdbscan ∷ aggregate_evaluation_report ∷ []

raised_not_finished : (t t' : List Event) → raised t ≢ finished t'
raised_not_finished t t' e = cc

step-finished :
    (w : Surroundings) (e : Event) (t t' : List Event)
    → run_step w e t ≡ finished t'
    → t ++ e ∷ [] ≡ t'
unfolding run_step
step-finished w e t t' h = ground arith

and_then-finished :
    (m : Outcome) (k : List Event → Outcome) (t' : List Event)
    → and_then m k ≡ finished t'
    → (t : List Event) × (m ≡ finished t) × (k t ≡ finished t')
and_then-finished (finished t) k t' h = (t, refl, h)
and_then-finished (raised t) k t' h = cc
and_then-finished out_of_fuel k t' h = cc

step_then :
    (w : Surroundings) (e : Event) (t : List Event) (k : List Event → Outcome) (t' : List Event)
    → and_then (run_step w e t) k ≡ finished t'
    → k (t ++ e ∷ []) ≡ finished t'
unfolding run_step
step_then w e t k t' h = elim (Bool-cases (w.raises t e)) [
  | inl raises ↦ absurd (raised_not_finished _ t' (rw raises at h))
  | inr goes_on ↦ rw goes_on at h
]

-- A loop that ends has stopped at the first poll that finds the batch done.
loop-finished :
    (w : Surroundings) (fuel n : ℕ) (t t' : List Event)
    → poll_loop fuel w n t ≡ finished t'
    → (j : ℕ) × IsFirstDone w n j × (t ++ rounds j ≡ t')
unfolding poll_loop rounds
loop-finished w zero n t t' h = cc
loop-finished w (suc fuel) n t t' h = elim (Bool-cases (poll_extraction_batch_once (w.polls n))) [
  | inl now ↦ (
    0,
    (
      subst (λ m. poll_extraction_batch_once (w.polls m) ≡ true) (sym (plus_zero n)) now,
      λ i lt. absurd (omega arith),
    ),
    ground arith,
  )
  | inr later ↦
      let (j, (d, before), e) =
        loop-finished w fuel (suc n) (t ++ wait ∷ poll ∷ []) t' (rw later at h) in
      (
        suc j,
        (
          subst (λ m. poll_extraction_batch_once (w.polls m) ≡ true) (sym (plus_suc n j)) d,
          earlier w n j
              (subst (λ m. poll_extraction_batch_once (w.polls m) ≡ false) (sym (plus_zero n))
                later)
              before,
        ),
        sym (append_assoc t (wait ∷ poll ∷ []) (rounds j)) ∙ e,
      )
]

one_by_one :
    (t : List Event)
    → t ++ evaluate_baseline ∷ evaluate_dbscan ∷ evaluate_hdbscan ∷ aggregate_evaluation_report ∷ []
      ≡ (((t ++ evaluate_baseline ∷ []) ++ evaluate_dbscan ∷ []) ++ evaluate_hdbscan ∷ [])
        ++ aggregate_evaluation_report ∷ []
one_by_one [] = refl
one_by_one (e ∷ t) = ap (◌∷◌ e) (one_by_one t)

evaluation-finished :
    (w : Surroundings) (t t' : List Event)
    → run_evaluation w t ≡ finished t'
    → t ++ evaluate_baseline ∷ evaluate_dbscan ∷ evaluate_hdbscan ∷ aggregate_evaluation_report ∷ []
      ≡ t'
unfolding run_evaluation
evaluation-finished w t t' h =
    let last = run_step w aggregate_evaluation_report in
    let third = λ (u : List Event). and_then (run_step w evaluate_hdbscan u) last in
    let second = λ (u : List Event). and_then (run_step w evaluate_dbscan u) third in
    let h1 = step_then w evaluate_baseline t second t' h in
    let h2 = step_then w evaluate_dbscan (t ++ evaluate_baseline ∷ []) third t' h1 in
    let h3 =
      step_then w evaluate_hdbscan ((t ++ evaluate_baseline ∷ []) ++ evaluate_dbscan ∷ []) last t'
        h2 in
    let h4 = step-finished w aggregate_evaluation_report _ t' h3 in one_by_one t ∙ h4

batch-finished :
    (w : Surroundings) (fuel : ℕ) (t t' : List Event)
    → run_batch fuel w t ≡ finished t'
    → (j : ℕ) × IsFirstDone w 0 j
      × (((t ++ submit_extraction_batch ∷ []) ++ rounds j) ++ collect_extraction_batch ∷ [] ≡ t')
unfolding run_batch
batch-finished w fuel t t' h =
    let rest =
      λ (v : List Event). and_then (poll_loop fuel w 0 v) (run_step w collect_extraction_batch) in
    let submitted = t ++ submit_extraction_batch ∷ [] in
    let h1 = step_then w submit_extraction_batch t rest t' h in
    let (v, e, h2) =
      and_then-finished (poll_loop fuel w 0 submitted) (run_step w collect_extraction_batch) t'
        h1 in
    let (j, first, e2) = loop-finished w fuel 0 submitted v e in
    (
      j,
      first,
      ap (λ x. x ++ collect_extraction_batch ∷ []) e2
          ∙ step-finished w collect_extraction_batch v t' h2,
    )

-- A finished workflow has done just these steps, each once and in this order: with a batch, it has
-- waited and polled until the first poll that found the batch done or failed, and no longer.
pub run_stage_sequence-finished :
    (w : Surroundings) (fuel : ℕ) (t : List Event)
    → run_stage_sequence fuel w ≡ finished t
    → (k : ℕ) × (t ≡ steps_of (extraction_batch_enabled w.batch) k)
      × ((extraction_batch_enabled w.batch ≡ false) ⊎ IsFirstDone w 0 k)
unfolding run_stage_sequence steps_of
run_stage_sequence-finished w fuel t h = elim (Bool-cases (extraction_batch_enabled w.batch)) [
  | inl enabled ↦
      let rest = λ (u : List Event). and_then (run_batch fuel w u) (run_evaluation w) in
      let h1 = step_then w validate_project [] rest t (rw enabled at h) in
      let (u, e, h2) =
        and_then-finished (run_batch fuel w (validate_project ∷ [])) (run_evaluation w) t h1 in
      let (j, first, e2) = batch-finished w fuel (validate_project ∷ []) u e in
      (
        j,
        rw enabled (sym (ap (λ x. x ++ evaluations) e2 ∙ evaluation-finished w u t h2)),
        inr first,
      )
  | inr plain ↦
      let rest = λ (u : List Event). and_then (run_step w compile_prompts u) (run_evaluation w) in
      let h1 = step_then w validate_project [] rest t (rw plain at h) in
      let h2 = step_then w compile_prompts (validate_project ∷ []) (run_evaluation w) t h1 in
      (
        0,
        rw plain (sym (evaluation-finished w (validate_project ∷ compile_prompts ∷ []) t h2)),
        inl plain,
      )
]
