-- ===== src/Evaluation/Tests.antt =====
-- Runs of the split policy, the gates and the selection, and instances of their theorems.
use rule_kiln.Prelude.{
  ℕ, ◌≡◌, ◌≢◌, ◌↔◌, refl, IsSetOf, not, ◌&&◌, Bool, true, false, none, some, List, [], ◌∷◌, String,
  arith, ℤ, pos,
}
use rule_kiln.Numbers.Whole.{whole}
use rule_kiln.Pruning.Ranking.{lookup}
use rule_kiln.Evaluation.Cases.{
  Split, RuleKilnCase, CaseEvalResult, EvalResult, TaskMode, get_primary_metric,
}
use rule_kiln.Evaluation.Splits.{count_cases_by_split, count_from, bump}
use rule_kiln.Evaluation.Gates.{
  Thresholds, Hardcoded, QualityGateDefaults, number, other, thresholds_of, check_quality_gates,
  QualityGateResult, primary_score,
}
use rule_kiln.Evaluation.Passing.{check_quality_gates-passed, Requires}
use rule_kiln.Evaluation.Regressions.{passes, passed_in}
use rule_kiln.Evaluation.Select.{
  Entry, fewer_golden, candidates, passing, select_strategy_generic, by_score, by_golden,
  select_top, select_least, top_of, least_of,
}
use rule_kiln.Evaluation.Chosen.{IsContender, IsNearBest, select_strategy_generic-IsChosen}
use rule_kiln.Evaluation.Ties.{IsChosen}

abbrev case_of : String → Split → RuleKilnCase
case_of name s = record { id = name; split = s }

abbrev cases : List RuleKilnCase
cases =
    case_of "t" Split.train
    ∷ case_of "v" Split.validation
    ∷ case_of "g" Split.golden
    ∷ case_of "w" Split.validation
    ∷ []

count_run :
    count_cases_by_split cases ≡ (Split.train, 1) ∷ (Split.validation, 2) ∷ (Split.golden, 1) ∷ []
unfolding count_cases_by_split count_from bump
count_run = refl

abbrev result_of : String → Bool → CaseEvalResult ℤ
result_of name ok = record {
  case_id = name;
  score = pos 0;
  passed = ok;
  malformed = false;
  assertion_scores = [];
}

abbrev eval_of : String → ℕ → List (CaseEvalResult ℤ) → EvalResult ℤ
eval_of name score results = record {
  strategy = name;
  split = Split.validation;
  accuracy = none;
  macro_f1 = some (pos score);
  weighted_case_score = none;
  malformed_output_rate = pos 0;
  case_results = results;
}

abbrev base_eval : EvalResult ℤ
base_eval = eval_of "baseline" 60 (result_of "v" true ∷ result_of "w" true ∷ [])

abbrev new_eval : EvalResult ℤ
new_eval = eval_of "dbscan" 70 (result_of "v" true ∷ result_of "w" false ∷ [])

abbrev same_int : ℤ → ℤ
same_int n = n

abbrev defaults : QualityGateDefaults whole same_int
defaults = record {
  min_metric_delta = pos 0;
  max_regression_rate = pos 0;
  max_golden_failures = pos 0;
  max_malformed_output_rate = pos 0;
  max_prompt_tokens = pos 8000;
}

abbrev hard : Hardcoded whole same_int
hard = record { delta = pos 0; regression = pos 0; malformed = pos 0 }

-- A task that sets its own length, and a metric delta that is no number.
abbrev limits : Thresholds whole same_int
limits =
    thresholds_of whole same_int hard
      (("max_prompt_tokens", number (pos 100)) ∷ ("min_metric_delta", other) ∷ []) defaults

check_quality_gates-passed_example :
    (lost : List String) × (held : List String) × IsSetOf
      (λ x. passed_in whole same_int (some base_eval) x && not (passes whole same_int x new_eval))
      lost
    × IsSetOf (passed_in whole same_int (some base_eval)) held
    × (((check_quality_gates whole same_int limits "dbscan" new_eval
            (some base_eval)
            cases
            TaskMode.classification
            50).passed
          ≡ true)
        ↔ Requires whole same_int limits new_eval
            (some base_eval)
            cases
            TaskMode.classification
            50
            lost
            held)
check_quality_gates-passed_example =
    check_quality_gates-passed whole same_int limits "dbscan" new_eval (some base_eval) cases
      TaskMode.classification 50

-- The gate of a strategy, with its golden failures.
abbrev gate_of : Bool → ℕ → QualityGateResult whole same_int
gate_of ok failures = record {
  strategy = "";
  passed = ok;
  delta = none;
  regression = pos 0;
  golden = failures;
  malformed = pos 0;
  tokens = 0;
  violations = [];
}

abbrev evals : List (Entry whole same_int)
evals =
    ("baseline", base_eval) ∷ ("dbscan", new_eval) ∷ ("hdbscan", new_eval) ∷ ("agg", new_eval) ∷ []

abbrev gates : List (String × QualityGateResult whole same_int)
gates = ("dbscan", gate_of true 1) ∷ ("hdbscan", gate_of true 0) ∷ ("agg", gate_of false 0) ∷ []

select_run :
    select_strategy_generic whole same_int TaskMode.classification gates [] evals "baseline"
    ≡ some ("hdbscan", fewer_golden)
unfolding select_strategy_generic candidates passing by_score by_golden select_top select_least
    top_of least_of primary_score get_primary_metric lookup
select_run = refl

cancel_ℤ : (x : ℤ) → whole.sub x x ≡ pos 0
cancel_ℤ x = ground arith

candidates_left : candidates whole same_int TaskMode.classification gates [] "baseline" evals ≢ []
unfolding candidates
candidates_left e = ground arith

select_strategy_generic-IsChosen_example :
    IsChosen whole same_int
      (λ c.
        IsContender whole same_int cancel_ℤ refl refl TaskMode.classification gates [] evals
          "baseline" c
        × IsNearBest whole same_int cancel_ℤ refl refl TaskMode.classification gates [] evals
            "baseline" c)
      (select_strategy_generic whole same_int TaskMode.classification gates [] evals "baseline")
select_strategy_generic-IsChosen_example =
    select_strategy_generic-IsChosen whole same_int cancel_ℤ refl refl TaskMode.classification gates
      [] evals "baseline" candidates_left
