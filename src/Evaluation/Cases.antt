-- ===== src/Evaluation/Cases.antt =====
-- Cases and evaluation results: `RuleKilnCase` of src/rulekiln/schemas/task_case.py, with the fields
-- that routing and gates read, `CaseEvalResult` and `EvalResult` of src/rulekiln/schemas/pipeline.py.
use rule_kiln.Prelude.{Bool, true, false, Option, List, String}

pub data Split : Type 0 where
  train validation test golden : Split

-- `==` of splits.
abbrev pub same_split : Split → Split → Bool
same_split Split.train Split.train = true
same_split Split.validation Split.validation = true
same_split Split.test Split.test = true
same_split Split.golden Split.golden = true
same_split _ _ = false

pub record RuleKilnCase : Type 0 where
  pub id : String
  pub split : Split

pub data TaskMode : Type 0 where
  classification routing tool_use extraction : TaskMode
  summarization rubric_review freeform_generation agent_behavior : TaskMode

pub data Metric : Type 0 where
  macro_f1 weighted_case_score : Metric

-- `get_primary_metric` of src/rulekiln/pipeline/evaluator.py.
unfoldable pub get_primary_metric : TaskMode → Metric
get_primary_metric TaskMode.classification = Metric.macro_f1
get_primary_metric TaskMode.routing = Metric.macro_f1
get_primary_metric _ = Metric.weighted_case_score

module _ (F : Type 0) where
  pub record CaseEvalResult : Type 0 where
    pub case_id : String
    pub score : F
    pub passed : Bool
    pub malformed : Bool
    pub assertion_scores : List (String × F)

  pub record EvalResult : Type 0 where
    pub strategy : String
    pub split : Split
    pub accuracy : Option F
    pub macro_f1 : Option F
    pub weighted_case_score : Option F
    pub malformed_output_rate : F
    pub case_results : List CaseEvalResult
