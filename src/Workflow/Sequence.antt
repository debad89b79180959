-- ===== src/Workflow/Sequence.antt =====
-- `_extraction_batch_enabled`, `_poll_extraction_batch_once`, `_run_stage_sequence` and
-- `run_dbos_stage_workflow` of src/rulekiln/workers/dbos_workflow.py. What a call finds in the payload,
-- the settings, the tables and at the provider is an argument, with `none` for an exception; whether a
-- phase raises is one, too, by what was done before it.
use rule_kiln.Prelude.{
  ℕ, zero, suc, Bool, true, false, not, ◌||◌, String, Option, none, some, List, [], ◌∷◌, ◌++◌,
  if◌then◌else◌, str_eq, ◌>>=◌,
}

-- The steps of the workflow. `wait` is the durable sleep, `poll` the step that asks the provider.
pub data Event : Type 0 where
  validate_project compile_prompts : Event
  submit_extraction_batch wait poll collect_extraction_batch : Event
  evaluate_baseline evaluate_dbscan evaluate_hdbscan : Event
  aggregate_evaluation_report : Event

-- What `_extraction_batch_enabled` reads, in its order: the teacher's configuration of the payload,
-- the phase's switch, the profile's switch, and whether the client can run batches.
pub record BatchSettings : Type 0 where
  pub teacher_config : Option (Option Bool)
  pub profile : Option (Option Bool)
  pub is_batch_client : Option Bool

abbrev pub false_on_error : Option Bool → Bool
false_on_error none = false
false_on_error (some b) = b

abbrev pub true_on_error : Option Bool → Bool
true_on_error none = true
true_on_error (some b) = b

-- The profile and the client, once the phase asks for batches.
profile_allows : Option Bool → Option Bool → Option Bool
profile_allows none client = some false
profile_allows (some false) client = some false
profile_allows (some true) client = client

phase_allows : Option Bool → BatchSettings → Option Bool
phase_allows none s = some false
phase_allows (some false) s = some false
phase_allows (some true) s = s.profile >>= λ profile. profile_allows profile s.is_batch_client

unfoldable pub extraction_batch_enabled : BatchSettings → Bool
unfolding phase_allows profile_allows ◌>>=◌
extraction_batch_enabled s =
    false_on_error (s.teacher_config >>= λ teacher_config. phase_allows teacher_config s)

-- What one poll finds: whether the payload has a teacher's configuration, whether the client can run
-- batches, the provider's id of the job's batch, and the provider's answer whether it is processing.
pub record Poll : Type 0 where
  pub has_teacher_config : Option Bool
  pub is_batch_client : Option Bool
  pub batch_job : Option (Option String)
  pub processing : Option Bool

ask_provider : Option String → Option Bool → Option Bool
ask_provider none processing = some true
ask_provider (some _) processing = processing >>= λ b. some (not b)

client_polls : Bool → Poll → Option Bool
client_polls false p = some true
client_polls true p = p.batch_job >>= λ job. ask_provider job p.processing

teacher_polls : Bool → Poll → Option Bool
teacher_polls false p = some true
teacher_polls true p = p.is_batch_client >>= λ can. client_polls can p

-- Whether the workflow may go on: an error counts as done.
unfoldable pub poll_extraction_batch_once : Poll → Bool
unfolding teacher_polls client_polls ask_provider ◌>>=◌
poll_extraction_batch_once p = true_on_error (p.has_teacher_config >>= λ has. teacher_polls has p)

-- `raised`: a step has raised, and the workflow with it. `out_of_fuel` is the model's own.
pub data Outcome : Type 0 where
  finished : List Event → Outcome
  raised : List Event → Outcome
  out_of_fuel : Outcome

abbrev pub and_then : Outcome → (List Event → Outcome) → Outcome
and_then (finished t) k = k t
and_then (raised t) k = raised t
and_then out_of_fuel k = out_of_fuel

-- The surroundings of a workflow. `polls n` is what its `n`-th poll finds, from 0.
pub record Surroundings : Type 0 where
  pub batch : BatchSettings
  pub polls : ℕ → Poll
  pub raises : List Event → Event → Bool

unfoldable pub run_step : Surroundings → Event → List Event → Outcome
run_step w e t = if w.raises t e then raised (t ++ e ∷ []) else finished (t ++ e ∷ [])

-- `while True`, with fuel: a round sleeps and polls.
unfoldable pub poll_loop : ℕ → Surroundings → ℕ → List Event → Outcome
poll_loop zero w n t = out_of_fuel
poll_loop (suc fuel) w n t =
    let again = poll_loop fuel w (suc n) (t ++ wait ∷ poll ∷ []) in
    if poll_extraction_batch_once (w.polls n) then finished (t ++ wait ∷ poll ∷ []) else again

unfoldable pub run_batch : ℕ → Surroundings → List Event → Outcome
unfolding run_step
run_batch fuel w t =
    and_then (run_step w submit_extraction_batch t)
      λ t1. and_then (poll_loop fuel w 0 t1) (run_step w collect_extraction_batch)

-- The phases after the extraction.
unfoldable pub run_evaluation : Surroundings → List Event → Outcome
unfolding run_step
run_evaluation w t = and_then (run_step w evaluate_baseline t) λ t1.
    and_then (run_step w evaluate_dbscan t1)
      λ t2. and_then (run_step w evaluate_hdbscan t2) (run_step w aggregate_evaluation_report)

unfoldable pub run_stage_sequence : ℕ → Surroundings → Outcome
unfolding run_step run_evaluation
run_stage_sequence fuel w = and_then (run_step w validate_project []) λ t.
    and_then
      (if extraction_batch_enabled w.batch
        then run_batch fuel w t
        else run_step w compile_prompts t)
      (run_evaluation w)

-- The calls of the runtime by which a job's workflow is started or resumed.
pub data RuntimeCall : Type 0 where
  delete_workflow start_workflow : RuntimeCall

-- `status` is the upper-case status of the workflow under the job's id, if there is one.
unfoldable pub run_dbos_stage_workflow : Option String → List RuntimeCall
run_dbos_stage_workflow none = start_workflow ∷ []
run_dbos_stage_workflow (some status) =
    if str_eq status "ERROR" || str_eq status "CANCELLED"
    then delete_workflow ∷ start_workflow ∷ []
    else start_workflow ∷ []
