-- ===== src/Stages/Extract.antt =====
-- The sequential extraction of `_run` in src/rulekiln/workers/distillation_worker.py, and a job whose
-- process dies and is started again.
use rule_kiln.Prelude.{
  ℕ, suc, Bool, true, String, Option, none, some, List, [], ◌∷◌, ◌++◌, map, keep, mem_str, str_eq,
  if◌then◌else◌,
}
use rule_kiln.Evaluation.Cases.{RuleKilnCase}
use rule_kiln.Stages.Session.{
  StageMarker, MicroRule, Db, provider_error, M, ◌>>=◌, ◌>>◌, pure, raise, query, write, commit,
  open_session, committed_by,
}
use rule_kiln.Stages.Markers.{
  mark_stage_complete, is_stage_complete, set_stage, stage_marker, artifact_marker,
}
use rule_kiln.Stages.CaseIds.{db_case_id, extracting_case_marker, payload_case_id_from_db_case_id}

-- `MicroRuleSchema`: a rule as the teacher answers it.
pub record MicroRuleSchema : Type 0 where
  pub topic : String
  pub condition : String
  pub expected_outcome : String
  pub output_path : Option String
  pub rationale_summary : Option String
  pub rule_type : String
  pub positive_cues : List String
  pub negative_cues : List String

-- What one process draws from outside: the teacher's answer to a case (`none` for a failed call), the
-- new identifiers, by case and by place in the answer, and the commits that it lives to make.
pub record Attempt : Type 0 where
  pub answer : RuleKilnCase → Option (List MicroRuleSchema)
  pub uuid4 : String → ℕ → String
  pub commits : ℕ

abbrev pub extracting_rules_stage : String
extracting_rules_stage = "extracting_rules"

-- The row of the `i`-th rule of an answer to case `c`.
unfoldable pub to_micro_rule : Attempt → String → String → ℕ → MicroRuleSchema → MicroRule
to_micro_rule a job c i r = record {
  id = a.uuid4 c i;
  job_id = job;
  case_id = db_case_id job c;
  topic = r.topic;
  condition = r.condition;
  expected_outcome = r.expected_outcome;
  output_path = r.output_path;
  rationale_summary = r.rationale_summary;
  rule_type = r.rule_type;
  positive_cues = r.positive_cues;
  negative_cues = r.negative_cues;
}

-- The rows that an answer becomes, from the `i`-th rule on.
unfoldable pub to_micro_rules :
    Attempt → String → String → ℕ → List MicroRuleSchema → List MicroRule
unfolding to_micro_rule
to_micro_rules a job c i [] = []
to_micro_rules a job c i (r ∷ rs) = to_micro_rule a job c i r ∷ to_micro_rules a job c (suc i) rs

unfoldable pub add_micro_rules : List MicroRule → Db → Db
add_micro_rules rows d = record d { micro_rules = d.micro_rules ++ rows }

unfoldable pub bulk_insert_micro_rules : List MicroRule → M (Unit {0})
unfolding add_micro_rules
bulk_insert_micro_rules rows = do write (add_micro_rules rows); commit

-- `if case_micro_rules: await bulk_insert_micro_rules(...)`
unfoldable pub insert_if_any : List MicroRule → M (Unit {0})
unfolding bulk_insert_micro_rules
insert_if_any [] = pure tt
insert_if_any (r ∷ rs) = bulk_insert_micro_rules (r ∷ rs)

unfoldable pub get_micro_rules_for_job : String → Db → List MicroRule
get_micro_rules_for_job job d = keep (λ r. str_eq r.job_id job) d.micro_rules

-- `await extract_rules_for_case(...)`
unfoldable pub extract_rules_for_case : Option (List MicroRuleSchema) → M (List MicroRuleSchema)
extract_rules_for_case none = raise provider_error
extract_rules_for_case (some rules) = pure rules

-- The marker of one case.
unfoldable pub case_marker : String → String → StageMarker
unfolding extracting_case_marker
case_marker job c = artifact_marker job extracting_rules_stage (extracting_case_marker c)

-- `case.id in extracted_case_ids or await is_stage_complete(...)`
unfoldable pub is_extracted : String → String → List String → M Bool
unfolding is_stage_complete
is_extracted job c extracted =
    if mem_str c extracted then pure true else is_stage_complete (case_marker job c)

-- The body of the loop for a case that is not skipped.
unfoldable pub extract_new : Attempt → String → RuleKilnCase → List String → M (List String)
unfolding extract_rules_for_case insert_if_any mark_stage_complete
extract_new a job case extracted = do
  rules ← extract_rules_for_case (a.answer case)
  insert_if_any (to_micro_rules a job case.id 0 rules)
  mark_stage_complete (case_marker job case.id)
  pure (case.id ∷ extracted)

-- One round of the loop, with the set `extracted_case_ids` before and after it.
unfoldable pub extract_case : Attempt → String → RuleKilnCase → List String → M (List String)
unfolding extract_new
extract_case a job case extracted = do
  skip ← is_extracted job case.id extracted
  if skip then pure extracted else extract_new a job case extracted

unfoldable pub extract_cases : Attempt → String → List RuleKilnCase → List String → M (Unit {0})
unfolding extract_case
extract_cases a job [] extracted = pure tt
extract_cases a job (case ∷ cases) extracted = do
  extracted' ← extract_case a job case extracted
  extract_cases a job cases extracted'

unfoldable pub extracted_case_ids : String → Db → List String
unfolding get_micro_rules_for_job
extracted_case_ids job d =
    map (λ r. payload_case_id_from_db_case_id job r.case_id) (get_micro_rules_for_job job d)

-- The stage behind its guard.
unfoldable pub extract_unmarked : Attempt → String → List RuleKilnCase → M (Unit {0})
unfolding set_stage extracted_case_ids extract_cases mark_stage_complete
extract_unmarked a job cases = do
  set_stage extracting_rules_stage
  extracted ← query (extracted_case_ids job)
  extract_cases a job cases extracted
  mark_stage_complete (stage_marker job extracting_rules_stage)

unfoldable pub extracting_rules : Attempt → String → List RuleKilnCase → M (Unit {0})
unfolding is_stage_complete extract_unmarked
extracting_rules a job cases = do
  complete ← is_stage_complete (stage_marker job extracting_rules_stage)
  if complete then pure tt else extract_unmarked a job cases

-- What a process leaves in the tables, whether it ends or dies.
unfoldable pub attempt : String → List RuleKilnCase → Attempt → Db → Db
unfolding extracting_rules
attempt job cases a d = committed_by (extracting_rules a job cases (open_session a.commits d))

-- A job's history: its processes one after the other, each on what the one before left.
unfoldable pub attempts : String → List RuleKilnCase → List Attempt → Db → Db
unfolding attempt
attempts job cases [] d = d
attempts job cases (a ∷ rest) d = attempts job cases rest (attempt job cases a d)

-- The rows of one case of the job.
unfoldable pub rules_of : String → String → Db → List MicroRule
unfolding get_micro_rules_for_job
rules_of job c d = keep (λ r. str_eq r.case_id (db_case_id job c)) (get_micro_rules_for_job job d)
