-- ===== src/Evaluation/Gates.antt =====
-- `check_quality_gates` of src/rulekiln/pipeline/quality_gates.py. A violation keeps the numbers that
-- its text prints. `int_of` is Python's `int` on a number.
use rule_kiln.Prelude.{
  ℕ, zero, suc, Bool, not, ◌&&◌, Option, none, some, List, [], ◌∷◌, ◌++◌, map, String, keep,
  count_if, length, mem_str, if◌then◌else◌, ltb_ℤ, ℤ, pos, ◌==◌,
}
use rule_kiln.Numbers.{Floats}
use rule_kiln.Pruning.Ranking.{lookup}
use rule_kiln.Evaluation.Cases.{
  Split, same_split, RuleKilnCase, EvalResult, TaskMode, Metric, get_primary_metric,
}

-- `{x for x in xs}`: each once.
unfoldable pub set_of : List String → List String
set_of [] = []
set_of (x ∷ xs) = let rest = set_of xs in if mem_str x rest then rest else x ∷ rest

module _ (floats : Floats) (int_of : floats.F → ℤ) where
  open floats use {F, lt, of_ℕ, sub, div}

  -- A value of a task's gates: a number, or something else.
  pub data GateValue : Type 0 where
    number : F → GateValue
    other : GateValue

  pub record QualityGateDefaults : Type 0 where
    pub min_metric_delta : F
    pub max_regression_rate : F
    pub max_golden_failures : ℤ
    pub max_malformed_output_rate : F
    pub max_prompt_tokens : ℤ

  pub record Thresholds : Type 0 where
    pub min_delta : F
    pub max_regression : F
    pub max_golden : ℤ
    pub max_malformed : F
    pub max_tokens : ℤ

  abbrev pub coerce_float : F → Option GateValue → F → F
  coerce_float default none setting = setting
  coerce_float default (some (number v)) setting = v
  coerce_float default (some other) setting = default

  abbrev pub coerce_int : ℤ → Option GateValue → ℤ → ℤ
  coerce_int default none setting = setting
  coerce_int default (some (number v)) setting = int_of v
  coerce_int default (some other) setting = default

  -- The hardcoded numbers that stand in for a task's value which is no number.
  pub record Hardcoded : Type 0 where
    pub delta : F
    pub regression : F
    pub malformed : F

  unfoldable pub thresholds_of :
      Hardcoded → List (String × GateValue) → QualityGateDefaults → Thresholds
  thresholds_of hard task_gates settings = record {
    min_delta =
        coerce_float hard.delta (lookup "min_metric_delta" task_gates) settings.min_metric_delta;
    max_regression =
        coerce_float hard.regression (lookup "max_regression_rate" task_gates)
          settings.max_regression_rate;
    max_golden =
        coerce_int (pos 0) (lookup "max_golden_failures" task_gates) settings.max_golden_failures;
    max_malformed =
        coerce_float hard.malformed (lookup "max_malformed_output_rate" task_gates)
          settings.max_malformed_output_rate;
    max_tokens =
        coerce_int (pos 8000) (lookup "max_prompt_tokens" task_gates) settings.max_prompt_tokens;
  }

  pub data Violation : Type 0 where
    metric_delta malformed_output_rate regression_rate : F → F → Violation
    golden_failures prompt_tokens : ℕ → ℤ → Violation

  pub record QualityGateResult : Type 0 where
    pub strategy : String
    pub passed : Bool
    pub delta : Option F
    pub regression : F
    pub golden : ℕ
    pub malformed : F
    pub tokens : ℕ
    pub violations : List Violation

  -- `value or 0.0`
  abbrev pub or_zero : Option F → F
  or_zero none = of_ℕ 0
  or_zero (some x) = x

  abbrev pub metric_of : Metric → EvalResult F → Option F
  metric_of Metric.macro_f1 e = e.macro_f1
  metric_of Metric.weighted_case_score e = e.weighted_case_score

  unfoldable pub primary_score : TaskMode → EvalResult F → F
  primary_score mode e = or_zero (metric_of (get_primary_metric mode) e)

  -- `{c.id for c in cases if c.split == "golden"}`
  unfoldable pub golden_ids : List RuleKilnCase → List String
  golden_ids cases = map (λ c. c.id) (keep (λ c. same_split c.split Split.golden) cases)

  unfoldable pub golden_failures_of : List RuleKilnCase → EvalResult F → ℕ
  golden_failures_of cases e =
      count_if (λ r. mem_str r.case_id (golden_ids cases) && not r.passed) e.case_results

  -- `{r.case_id for r in case_results if r.passed}`
  unfoldable pub pass_ids : EvalResult F → List String
  pass_ids e = set_of (map (λ r. r.case_id) (keep (λ r. r.passed) e.case_results))

  -- `baseline_pass - distilled_pass`
  unfoldable pub regressions_of : EvalResult F → EvalResult F → List String
  regressions_of base e = keep (λ x. not (mem_str x (pass_ids e))) (pass_ids base)

  abbrev pub rate_of : ℕ → ℕ → F
  rate_of n zero = of_ℕ 0
  rate_of n (suc total) = div (of_ℕ n) (of_ℕ (suc total))

  unfoldable pub regression_rate_of : Option (EvalResult F) → EvalResult F → F
  regression_rate_of none e = of_ℕ 0
  regression_rate_of (some base) e =
      rate_of (length (regressions_of base e)) (length (pass_ids base))

  unfoldable pub delta_of : TaskMode → Option (EvalResult F) → EvalResult F → Option F
  delta_of mode none e = none
  delta_of mode (some base) e = some (sub (primary_score mode e) (primary_score mode base))

  -- A violation if the test holds.
  abbrev pub violated : Bool → Violation → List Violation
  violated b v = if b then v ∷ [] else []

  abbrev pub delta_gate : Thresholds → Option F → List Violation
  delta_gate t none = []
  delta_gate t (some d) = violated (lt d t.min_delta) (metric_delta d t.min_delta)

  abbrev pub regression_gate : Thresholds → Option (EvalResult F) → F → List Violation
  regression_gate t none rate = []
  regression_gate t (some base) rate =
      violated (lt t.max_regression rate) (regression_rate rate t.max_regression)

  unfoldable pub violations_of :
      Thresholds
      → TaskMode
      → List RuleKilnCase
      → Option (EvalResult F)
      → EvalResult F
      → ℕ
      → List Violation
  violations_of t mode cases base e tokens =
      delta_gate t (delta_of mode base e)
      ++ (violated (lt t.max_malformed e.malformed_output_rate)
            (malformed_output_rate e.malformed_output_rate t.max_malformed)
          ++ (violated (ltb_ℤ t.max_golden (pos (golden_failures_of cases e)))
                (golden_failures (golden_failures_of cases e) t.max_golden)
              ++ (regression_gate t base (regression_rate_of base e)
                  ++ violated (ltb_ℤ t.max_tokens (pos tokens))
                      (prompt_tokens tokens t.max_tokens))))

  unfoldable pub check_quality_gates :
      Thresholds
      → String
      → EvalResult F
      → Option (EvalResult F)
      → List RuleKilnCase
      → TaskMode
      → ℕ
      → QualityGateResult
  check_quality_gates t strategy e base cases mode tokens =
      let violations = violations_of t mode cases base e tokens in
      record {
        strategy = strategy;
        passed = length violations == 0;
        delta = delta_of mode base e;
        regression = regression_rate_of base e;
        golden = golden_failures_of cases e;
        malformed = e.malformed_output_rate;
        tokens = tokens;
        violations = violations;
      }
