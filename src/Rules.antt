-- ===== src/Rules.antt =====
-- `SynthesizedRuleSchema` and `OutcomeCondition` of src/rulekiln/schemas/pipeline.py. `F` is the type
-- of floats. Counts are natural numbers.
pub mod Samples
use rule_kiln.Prelude.{ℕ, Bool, Option, List, String, ℤ}

pub record OutcomeCondition : Type 0 where
  pub outcome : String
  pub when : List String
  pub confidence : String

pub record Rule (F : Type 0) : Type 0 where
  pub id : String
  pub rule_type : String
  pub topic : String
  pub applies_when : List String
  pub outcome_conditions : List (String × OutcomeCondition)
  pub tie_breakers : List String
  pub priority : ℤ
  pub source_case_ids : List String
  pub source_micro_rule_ids : List String
  pub has_conflicts : Bool
  pub conflict_summary : Option String
  pub conflicting_micro_rule_ids : List String
  pub support_count : ℕ
  pub support_ratio : F
  pub golden_case_backed : Bool
  pub estimated_token_count : ℕ
