-- ===== src/Optimizers/Evals.antt =====
-- Evaluations of strategies as the optimizers read them, and what the optimizers call.
use rule_kiln.Prelude.{
  ℕ, Bool, true, Option, none, some, List, map, String, str_eq, keep, not, if◌then◌else◌,
}
use rule_kiln.Numbers.{Floats}
use rule_kiln.Rules.{Rule}
use rule_kiln.Evaluation.Cases.{EvalResult}

-- `primary_metric.strip().lower()`, by the names that are tested.
pub data MetricName : Type 0 where
  named_macro_f1 named_accuracy other_name : MetricName

-- `strategy in DISTILLED_STRATEGIES`
abbrev pub is_distilled : String → Bool
is_distilled strategy = if str_eq strategy "dbscan" then true else str_eq strategy "hdbscan"

module _ (floats : Floats) where
  open floats use {F, of_ℕ}

  -- `EvalResult` with the token count of its prompt.
  pub record StrategyEval : Type 0 where
    pub result : EvalResult F
    pub prompt_token_count : Option ℕ

  abbrev pub EvalMap : Type 0
  EvalMap = List (String × StrategyEval)

  -- `float(value or 0.0)`
  abbrev pub or_zero : Option F → F
  or_zero none = of_ℕ 0
  or_zero (some x) = x

  abbrev pub score_by : MetricName → EvalResult F → F
  score_by named_macro_f1 r = or_zero r.macro_f1
  score_by named_accuracy r = or_zero r.accuracy
  score_by other_name r = or_zero r.weighted_case_score

  -- `_primary_score_for_metric`
  unfoldable pub primary_score_for_metric : MetricName → Option StrategyEval → F
  primary_score_for_metric metric none = of_ℕ 0
  primary_score_for_metric metric (some e) = score_by metric e.result

  -- A row of the rules of the selected strategy.
  pub record SynthesizedRule : Type 0 where
    pub rule : Rule F
    pub is_pruned : Bool

  -- `get_selected_synthesized_rules_for_job`, as schemas.
  unfoldable pub get_selected_synthesized_rules : List SynthesizedRule → List (Rule F)
  get_selected_synthesized_rules rows = map (λ r. r.rule) (keep (λ r. not r.is_pruned) rows)

  -- `compile_prompt` and `_evaluate_prompt_strategy`, each by the strategy's id; none is an exception.
  pub record OptimizerCalls : Type 1 where
    pub Prompt : Type 0
    pub compile : List (Rule F) → String → Option Prompt
    pub evaluate : Prompt → String → Option StrategyEval

  -- The fields of the task that the optimizers read.
  pub record OptimizerTask : Type 0 where
    pub enable_rule_ablation : Bool
    pub small_run_case_threshold : ℕ
    pub max_ablation_rules : ℕ
    pub ablation_min_changed_cases : ℕ
    pub max_rules : ℕ
    pub max_prompt_tokens : ℕ
    pub min_rule_support_count : ℕ
    pub preserve_golden_rules : Bool
    pub rule_regression_penalty : F
