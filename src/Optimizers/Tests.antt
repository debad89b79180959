-- ===== src/Optimizers/Tests.antt =====
-- Runs of the optimizers, and instances of their theorems.
use rule_kiln.Prelude.{
  Bool, true, false, none, some, Option, List, [], ◌∷◌, ◌++◌, ◌≡◌, ◌≢◌, refl, String, map, length,
  All, arith, ℤ, pos, eq_iff, last_with, ◌≤◌,
}
use rule_kiln.Numbers.Whole.{whole}
use rule_kiln.Rules.{Rule}
use rule_kiln.Rules.Samples.{costly, cheap, rare}
use rule_kiln.Pruning.Ranking.{lookup}
use rule_kiln.Evaluation.Cases.{CaseEvalResult, Split}
use rule_kiln.Optimizers.Evals.{
  MetricName, StrategyEval, SynthesizedRule, OptimizerCalls, OptimizerTask,
  primary_score_for_metric, get_selected_synthesized_rules,
}
use rule_kiln.Optimizers.Ablation.{
  Classification, RuleAblationRecord, ablation_strategy_id, ablation_classify, run_rule_ablation,
}
use rule_kiln.Optimizers.Rounds.{rule_ids, AreDistinct, AreNew}
use rule_kiln.Optimizers.Resumed.{
  IsEnabled, ablated_rules, markers_after, run_rule_ablation-records, resumed_ablation_forgets,
}
use rule_kiln.Optimizers.TwoPass.{ConfiguredMode, PruningModeRow, run_two_pass_optimizer}
use rule_kiln.Optimizers.Rows.{IsWithin, IsFresh, pass1_row, run_two_pass_optimizer-rows}

abbrev case_result : String → Bool → CaseEvalResult ℤ
case_result id passed = record {
  case_id = id;
  score = pos 0;
  passed = passed;
  malformed = false;
  assertion_scores = [];
}

abbrev eval_of : ℤ → List (CaseEvalResult ℤ) → StrategyEval whole
eval_of score results = record {
  result = record {
    strategy = "";
    split = Split.validation;
    accuracy = none;
    macro_f1 = some score;
    weighted_case_score = none;
    malformed_output_rate = pos 0;
    case_results = results;
  };
  prompt_token_count = some 50;
}

-- A prompt is the list of its rules; fewer rules pass fewer cases.
abbrev fewer : List (Rule ℤ) → StrategyEval whole
fewer [] = eval_of (pos 1) (case_result "c1" false ∷ case_result "c2" false ∷ [])
fewer (r ∷ []) = eval_of (pos 4) (case_result "c1" true ∷ case_result "c2" false ∷ [])
fewer (r ∷ s ∷ rs) = eval_of (pos 9) (case_result "c1" true ∷ case_result "c2" true ∷ [])

abbrev calls : OptimizerCalls whole
calls = record {
  Prompt = List (Rule ℤ);
  compile = λ rules id. some rules;
  evaluate = λ prompt id. some (fewer prompt);
}

abbrev task : OptimizerTask whole
task = record {
  enable_rule_ablation = true;
  small_run_case_threshold = 200;
  max_ablation_rules = 20;
  ablation_min_changed_cases = 1;
  max_rules = 1;
  max_prompt_tokens = 100;
  min_rule_support_count = 2;
  preserve_golden_rules = true;
  rule_regression_penalty = pos 2;
}

abbrev kept_row : Rule ℤ → SynthesizedRule whole
kept_row r = record { rule = r; is_pruned = false }

abbrev stored : List (SynthesizedRule whole)
stored = kept_row cheap ∷ record { rule = rare; is_pruned = true } ∷ kept_row costly ∷ []

abbrev evals : List (String × StrategyEval whole)
evals = ("dbscan", fewer (cheap ∷ costly ∷ [])) ∷ []

abbrev classes : Option (List (RuleAblationRecord whole)) → List Classification
classes none = []
classes (some records) = map (λ a. a.classification) records

-- Without either rule a case fails that passed.
ablation_run :
    classes
      (run_rule_ablation whole calls task MetricName.named_macro_f1 "dbscan" 2 stored []
        evals).artifact
    ≡ Classification.helpful ∷ Classification.helpful ∷ []
unfolding run_rule_ablation get_selected_synthesized_rules ablation_strategy_id ablation_classify
    last_with lookup primary_score_for_metric
ablation_run = refl

stored-IsEnabled : IsEnabled whole calls task MetricName.named_macro_f1 "dbscan" 2 stored
unfolding get_selected_synthesized_rules
stored-IsEnabled = record {
  enabled = refl;
  small = refl;
  distilled = refl;
  some_rules = omega arith;
}

cheap-ne-costly : cheap.id ≢ costly.id
cheap-ne-costly e = ground (arith, eq_iff "cheap" "costly")

stored-AreDistinct :
    AreDistinct whole calls task MetricName.named_macro_f1
      (ablated_rules whole calls task MetricName.named_macro_f1 stored)
unfolding get_selected_synthesized_rules
stored-AreDistinct = ((cheap-ne-costly, tt), (tt, tt))

stored-AreNew :
    AreNew whole calls task MetricName.named_macro_f1 []
      (ablated_rules whole calls task MetricName.named_macro_f1 stored)
unfolding get_selected_synthesized_rules
stored-AreNew = (refl, (refl, tt))

run_rule_ablation-records_example :
    (records : List (RuleAblationRecord whole)) × ((run_rule_ablation whole calls task
        MetricName.named_macro_f1 "dbscan" 2 stored [] evals).artifact
      ≡ some records)
    × (rule_ids whole calls task MetricName.named_macro_f1 records
        ≡ map (λ r. r.id) (ablated_rules whole calls task MetricName.named_macro_f1 stored))
run_rule_ablation-records_example =
    run_rule_ablation-records whole calls task MetricName.named_macro_f1 "dbscan" 2 stored [] evals
      stored-IsEnabled stored-AreDistinct stored-AreNew

stored_split :
    ablated_rules whole calls task MetricName.named_macro_f1 stored ≡ (cheap ∷ []) ++ (costly ∷ [])
unfolding get_selected_synthesized_rules
stored_split = refl

ablation_unknown : All (λ r. lookup (ablation_strategy_id r.id) evals ≡ none) (cheap ∷ [])
unfolding ablation_strategy_id lookup
ablation_unknown = (refl, tt)

resumed_ablation_forgets_example :
    (records : List (RuleAblationRecord whole)) × ((run_rule_ablation whole calls task
        MetricName.named_macro_f1 "dbscan" 2 stored
        (markers_after whole calls task MetricName.named_macro_f1 "dbscan" stored [] evals
          (cheap ∷ []))
        evals).artifact
      ≡ some records)
    × (rule_ids whole calls task MetricName.named_macro_f1 records ≡ "costly" ∷ [])
resumed_ablation_forgets_example =
    resumed_ablation_forgets whole calls task MetricName.named_macro_f1 "dbscan" 2 stored [] evals
      (cheap ∷ []) (costly ∷ []) stored-IsEnabled stored_split ((cheap-ne-costly, tt), (tt, tt))
      (refl, (refl, tt)) ablation_unknown

utility-ne-support_count : ConfiguredMode.utility ≢ ConfiguredMode.support_count
utility-ne-support_count e = cc

nothing-IsFresh : IsFresh whole calls task MetricName.named_macro_f1 "dbscan" []
nothing-IsFresh = record { distilled = refl; utility_new = refl; per_token_new = refl }

run_two_pass_optimizer-rows_example :
    (extra : List (PruningModeRow whole)) × ((run_two_pass_optimizer whole calls task
        MetricName.named_macro_f1 "dbscan" ConfiguredMode.utility stored none [] evals).rows
      ≡ some (pass1_row whole calls task MetricName.named_macro_f1 "dbscan" stored evals ∷ extra))
    × All (IsWithin whole calls task MetricName.named_macro_f1 "dbscan") extra
    × (length extra ≤ 2)
run_two_pass_optimizer-rows_example =
    run_two_pass_optimizer-rows whole calls task MetricName.named_macro_f1 "dbscan"
      ConfiguredMode.utility stored none [] evals utility-ne-support_count nothing-IsFresh
