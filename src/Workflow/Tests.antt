-- ===== src/Workflow/Tests.antt =====
-- Runs of the workflow, and instances of its theorems.
use rule_kiln.Prelude.{ℕ, true, false, none, some, [], ◌∷◌, ◌≡◌, ◌≢◌, refl, ◌⊎◌, arith, ltb}
use rule_kiln.Workflow.Sequence.{
  delete_workflow, start_workflow, Poll, extraction_batch_enabled, poll_extraction_batch_once,
  finished, out_of_fuel, Surroundings, poll_loop, run_batch, run_stage_sequence,
  run_dbos_stage_workflow,
}
use rule_kiln.Workflow.Ends.{IsFirstDone, run_stage_sequence_ends}
use rule_kiln.Workflow.Finished.{steps_of, run_stage_sequence-finished}

-- The provider is still processing at the first two polls.
abbrev slow_poll : ℕ → Poll
slow_poll n = record {
  has_teacher_config = some true;
  is_batch_client = some true;
  batch_job = some (some "batch-1");
  processing = some (ltb n 2);
}

abbrev slow_batch : Surroundings
slow_batch = record {
  batch = record {
    teacher_config = some (some true);
    profile = some (some true);
    is_batch_client = some true;
  };
  polls = slow_poll;
  raises = λ t e. false;
}

third_poll_is_done : poll_extraction_batch_once (slow_poll 2) ≡ true
unfolding poll_extraction_batch_once
third_poll_is_done = refl

slow_run : run_stage_sequence 3 slow_batch ≡ finished (steps_of true 2)
unfolding run_stage_sequence run_batch poll_loop extraction_batch_enabled poll_extraction_batch_once
    steps_of
slow_run = refl

run_stage_sequence_ends_example :
    (run_stage_sequence 9 slow_batch ≢ out_of_fuel)
    × (run_stage_sequence 9 slow_batch ≡ run_stage_sequence 3 slow_batch)
run_stage_sequence_ends_example =
    run_stage_sequence_ends slow_batch 2 9 third_poll_is_done (omega arith)

run_stage_sequence-finished_example :
    (k : ℕ) × (steps_of true 2 ≡ steps_of (extraction_batch_enabled slow_batch.batch) k)
    × ((extraction_batch_enabled slow_batch.batch ≡ false) ⊎ IsFirstDone slow_batch 0 k)
run_stage_sequence-finished_example =
    run_stage_sequence-finished slow_batch 3 (steps_of true 2) slow_run

-- An answer that cannot be fetched ends the wait.
failed_poll :
    poll_extraction_batch_once (record {
      has_teacher_config = some true;
      is_batch_client = some true;
      batch_job = some (some "batch-1");
      processing = none;
    })
    ≡ true
unfolding poll_extraction_batch_once
failed_poll = refl

failed_workflow_is_deleted :
    run_dbos_stage_workflow (some "ERROR") ≡ delete_workflow ∷ start_workflow ∷ []
unfolding run_dbos_stage_workflow
failed_workflow_is_deleted = refl
