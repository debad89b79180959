-- ===== src/Failures/Tests.antt =====
-- A run of the failure analysis, and instances of its theorems.
use rule_kiln.Prelude.{
  ℕ, Bool, true, false, String, Option, none, some, List, [], ◌∷◌, ◌≡◌, refl, times, str_eq, pos,
  last_with, ℤ, if◌then◌else◌, ◌>>=◌,
}
use rule_kiln.Numbers.Whole.{whole}
use rule_kiln.Rules.{Rule}
use rule_kiln.Evaluation.Cases.{CaseEvalResult}
use rule_kiln.Evaluator.Scoring.{AssertionType}
use rule_kiln.Pruning.Ranking.{lookup}
use rule_kiln.Failures.Analysis.{analyze_failures, structured_failure}
use rule_kiln.Failures.Attribution.{
  unattributed_rule_id, fixed, unchanged_wrong, CaseEvaluationFailure, AnalyzedCase,
}
use rule_kiln.Failures.Signals.{fixes, breaks, or_zero, build_utility_signals_lem}
use rule_kiln.Failures.Utility.{build_utility_signals}
use rule_kiln.Failures.Classes.{is_told, names, analyze_failures-names}

abbrev key_index : String → Option ℕ
key_index key = if str_eq key "assertion_0" then some 0 else none

abbrev result : String → Bool → CaseEvalResult ℤ
result id passes = record {
  case_id = id;
  score = if passes then pos 1 else pos 0;
  passed = passes;
  malformed = false;
  assertion_scores = ("assertion_0", if passes then pos 1 else pos 0) ∷ [];
}

abbrev before : List (CaseEvalResult ℤ)
before = result "a" false ∷ result "b" true ∷ []

abbrev after : List (CaseEvalResult ℤ)
after = result "a" true ∷ result "b" false ∷ result "c" false ∷ []

abbrev refund_rule : Rule ℤ
refund_rule = record {
  id = "r1";
  rule_type = "decision";
  topic = "refund";
  applies_when = [];
  outcome_conditions = ("0", record { outcome = "refund"; when = []; confidence = "high" }) ∷ [];
  tie_breakers = [];
  priority = pos 1;
  source_case_ids = [];
  source_micro_rule_ids = [];
  has_conflicts = false;
  conflict_summary = none;
  conflicting_micro_rule_ids = [];
  support_count = 1;
  support_ratio = pos 1;
  golden_case_backed = false;
  estimated_token_count = 1;
}

abbrev expects_refund : String → AnalyzedCase
expects_refund id = record {
  id = id;
  assertions = record { kind = AssertionType.must_equal; label = "refund" } ∷ [];
}

abbrev found : List CaseEvaluationFailure
found =
    (analyze_failures whole key_index (some before) after (some (refund_rule ∷ []))
      (expects_refund "a" ∷ expects_refund "b" ∷ [])).structured_failures

-- The rule is matched by case a and violated by case b; case c, which is not known, is nobody's.
signals_run : build_utility_signals found ≡ ("r1", (1, 1)) ∷ []
unfolding analyze_failures build_utility_signals structured_failure ◌>>=◌
signals_run = refl

fixed_run :
    names whole key_index fixed (analyze_failures whole key_index (some before) after none [])
    ≡ "a" ∷ []
unfolding analyze_failures
fixed_run = refl

-- A case that the baseline passed and the prompt has no result of is failing.
analyze_failures-names_example :
    times "d" (
      names whole key_index unchanged_wrong
        (analyze_failures whole key_index (some (result "d" true ∷ before)) after none []))
    ≡ (if is_told whole key_index unchanged_wrong
          (last_with (λ x. x.case_id) "d" (result "d" true ∷ before))
          (last_with (λ x. x.case_id) "d" after)
        then 1
        else 0)
analyze_failures-names_example =
    analyze_failures-names whole key_index unchanged_wrong "d" (result "d" true ∷ before) after none
      []

build_utility_signals_lem_example :
    (or_zero (lookup "r1" (build_utility_signals found)) ≡ (fixes "r1" found, breaks "r1" found))
    × (lookup unattributed_rule_id (build_utility_signals found) ≡ none)
build_utility_signals_lem_example = build_utility_signals_lem found "r1" refl
