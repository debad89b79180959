-- ===== src/Evaluator/Tests.antt =====
-- Runs of the evaluator, and instances of its theorems.
use text.Mathlib.Text.{find?}
use rule_kiln.Prelude.{
  true, false, String, none, some, is_some, List, [], ◌∷◌, ◌≡◌, ◌≢◌, refl, if◌then◌else◌, str_eq,
  arith, pos, decimal, All,
}
use rule_kiln.Numbers.Whole.{whole}
use rule_kiln.Evaluator.Scoring.{
  Python, AssertionType, plain, fields, EvaluationAssertion, EvalCase, CaseResult, score_case,
}
use rule_kiln.Evaluator.Results.{RunKey, CaseColumns}
use rule_kiln.Evaluator.Evaluate.{
  Evaluation, result_of, completed_case_results, score, store, evaluate, evaluate_all,
}
use rule_kiln.Evaluator.Evaluate.Lookup.{held-store}
use rule_kiln.Evaluator.Evaluate.Resume.{resumed_evaluation}

-- JSON values as their texts; a pattern is found where it stands literally.
abbrev texts : Python
texts = record {
  Json = String;
  of_text = λ s. s;
  of_fields = λ fs. "{}";
  str = λ s. s;
  equal = str_eq;
  search = λ p s. some (is_some (find? s p));
  text_of = λ s. some s;
  is_blank = λ s. str_eq s "";
}

abbrev label_is : String → EvaluationAssertion whole texts
label_is v = record {
  kind = AssertionType.must_equal;
  path = "label" ∷ [];
  value = v;
  weight = pos 1;
}

abbrev mentions : String → EvaluationAssertion whole texts
mentions v = record { kind = AssertionType.must_include; path = []; value = v; weight = pos 1 }

abbrev two_cases : List (EvalCase whole texts)
two_cases =
    record { id = "a"; assertions = label_is "refund" ∷ [] }
    ∷ record { id = "b"; assertions = mentions "sorry" ∷ [] }
    ∷ []

-- The student labels case a, and fails on case b.
abbrev run_key : RunKey
run_key = record { job_id = "j"; student_id = "s"; strategy = "dbscan"; split = "test" }

abbrev any_columns : CaseColumns whole texts
any_columns = record { expected = none; is_labelled = true }

abbrev labelling : Evaluation whole texts
labelling = record {
  run = run_key;
  student = λ case.
      if str_eq case.id "a"
      then (some (fields (("label", "refund") ∷ [])), false)
      else (none, true);
  dumps = λ o. "{}";
  columns = λ id. any_columns;
}

scores_run : All (λ case. is_some (score whole texts labelling case) ≡ true) two_cases
unfolding score decimal
scores_run = (refl, (refl, tt))

passing_run :
    score_case whole texts
      (record { id = "a"; assertions = label_is "refund" ∷ [] })
      (some (fields (("label", "refund") ∷ [])))
      false
    ≡ some (record {
      case_id = "a";
      score = pos 1;
      passed = true;
      malformed = false;
      assertion_scores = ("assertion_0", pos 1) ∷ [];
      actual_output = some (fields (("label", "refund") ∷ []));
      error = none;
    })
unfolding score_case decimal
passing_run = refl

abbrev failed_b : CaseResult whole texts
failed_b = record {
  case_id = "b";
  score = pos 0;
  passed = false;
  malformed = true;
  assertion_scores = [];
  actual_output = some (plain "no");
  error = none;
}

no_rows : completed_case_results whole texts run_key [] ≡ []
unfolding completed_case_results
no_rows = refl

-- Two processes die, the first before any commit, the second after one.
resumed_evaluation_example :
    ((evaluate whole texts labelling two_cases 2
        (evaluate_all whole texts labelling two_cases (0 ∷ 1 ∷ []) [])).1
      ≢ none)
    × ((evaluate whole texts labelling two_cases 2
          (evaluate_all whole texts labelling two_cases (0 ∷ 1 ∷ []) [])).1
        ≡ (evaluate whole texts labelling two_cases 2 []).1)
resumed_evaluation_example =
    resumed_evaluation whole texts labelling two_cases (0 ∷ 1 ∷ []) 2 2 [] scores_run (omega arith)
      (omega arith) no_rows

held-store_example :
    result_of whole texts "b"
      (completed_case_results whole texts run_key (store whole texts labelling failed_b []))
    ≡ (if str_eq "b" "b"
        then some failed_b
        else result_of whole texts "b" (completed_case_results whole texts run_key []))
held-store_example = held-store whole texts labelling failed_b "b" []
