-- ===== src/Stages/Collect.antt =====
-- The batch collect path of `_run` in src/rulekiln/workers/distillation_worker.py: what the provider's
-- finished batch is written to the tables as. The row of the batch itself is not kept here.
pub mod Twice
use rule_kiln.Prelude.{
  ℕ, zero, suc, ◌≤◌, Bool, true, false, String, Option, none, some, List, [], ◌∷◌, if◌then◌else◌,
}
use rule_kiln.Stages.Session.{
  Db, Session, Result, ok, err, M, ◌>>=◌, ◌>>◌, pure, open_session, committed_by,
}
use rule_kiln.Stages.Markers.{mark_stage_complete, is_stage_complete, stage_marker}
use rule_kiln.Stages.Extract.{
  MicroRuleSchema, Attempt, extracting_rules_stage, to_micro_rules, insert_if_any, case_marker,
}

-- One result of a batch. `parsed` is the answer of an item that has succeeded with one, and nothing
-- for any other.
pub record BatchItem : Type 0 where
  pub custom_id : String
  pub parsed : Option (List MicroRuleSchema)

abbrev pub collected_stage : String
collected_stage = "extracting_rules_batch_collected"

-- An item that has failed is logged, and otherwise passed over.
unfoldable pub collect_parsed :
    Attempt → String → String → Option (List MicroRuleSchema) → M (Unit {0})
unfolding insert_if_any mark_stage_complete
collect_parsed a job c none = pure tt
collect_parsed a job c (some rules) = do
  insert_if_any (to_micro_rules a job c 0 rules)
  mark_stage_complete (case_marker job c)

unfoldable pub collect_items : Attempt → String → List BatchItem → M (Unit {0})
unfolding collect_parsed
collect_items a job [] = pure tt
collect_items a job (item ∷ items) = do
  collect_parsed a job item.custom_id item.parsed
  collect_items a job items

unfoldable pub collect_unmarked : Attempt → String → List BatchItem → M (Unit {0})
unfolding collect_items mark_stage_complete
collect_unmarked a job items = do
  collect_items a job items
  mark_stage_complete (stage_marker job extracting_rules_stage)
  mark_stage_complete (stage_marker job collected_stage)

unfoldable pub collecting_batch : Attempt → String → List BatchItem → M (Unit {0})
unfolding is_stage_complete collect_unmarked
collecting_batch a job items = do
  collected ← is_stage_complete (stage_marker job collected_stage)
  if collected then pure tt else collect_unmarked a job items

-- What a process that collects the batch leaves in the tables.
unfoldable pub collect : String → List BatchItem → Attempt → Db → Db
unfolding collecting_batch
collect job items a d = committed_by (collecting_batch a job items (open_session a.commits d))
