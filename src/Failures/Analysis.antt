-- ===== src/Failures/Analysis.antt =====
-- `analyze_failures` and what it calls in src/rulekiln/pipeline/failure_analysis.py. A case has, of
-- each assertion, the type and the text of its value, which is empty for no value. `key_index` reads
-- the number of an assertion's key, as the regular expression does. The set of all ids, which has no
-- order, is gone through in the order of the two evaluations.
use rule_kiln.Prelude.{
  ℕ, Bool, true, false, String, Option, none, some, List, [], ◌∷◌, ◌++◌, if◌then◌else◌, map,
  last_with, ◌>>=◌,
}
use rule_kiln.Numbers.{Floats}
use rule_kiln.Rules.{Rule}
use rule_kiln.Evaluation.Cases.{CaseEvalResult}
use rule_kiln.Evaluator.Scoring.{AssertionType}
use rule_kiln.Failures.Attribution.{
  fixed, broken, unchanged_wrong, unchanged_correct, unattributed_rule_id, FailureClass,
  CaseEvaluationFailure, LabelledAssertion, AnalyzedCase, append_all_new, RuleIndex, ids_under,
  build_outcome_to_rule_ids, matched_rules, assertion_at, same_type, has_type, append_type,
}

module _ (fl : Floats) (key_index : String → Option ℕ) where
  open fl use {F, lt, of_ℕ}

  -- `[path for path, score in assertion_scores.items() if score < 1.0]`
  unfoldable pub failed_paths : List (String × F) → List String
  failed_paths [] = []
  failed_paths ((path, score) ∷ scores) =
      if lt score (of_ℕ 1) then path ∷ failed_paths scores else failed_paths scores

  -- What one failed assertion adds.
  abbrev Blame : Type 0
  Blame = List AssertionType × List String

  blame_assertion : RuleIndex → Option LabelledAssertion → Blame → Blame
  blame_assertion index none blame = blame
  blame_assertion index (some a) (types, violated) =
      (append_type a.kind types, append_all_new (ids_under a.label index) violated)

  blame_paths : RuleIndex → List LabelledAssertion → List String → Blame → Blame
  blame_paths index assertions [] blame = blame
  blame_paths index assertions (path ∷ paths) blame =
      blame_paths index assertions paths
        (blame_assertion index (key_index path >>= λ i. assertion_at i assertions) blame)

  assertions_of : Option AnalyzedCase → List LabelledAssertion
  assertions_of none = []
  assertions_of (some case) = case.assertions

  -- `if not violated and failed_paths: violated = [UNATTRIBUTED_RULE_ID]`
  unfoldable pub or_unattributed : List String → List String → List String
  or_unattributed [] [] = []
  or_unattributed [] (path ∷ paths) = unattributed_rule_id ∷ []
  or_unattributed (v ∷ violated) paths = v ∷ violated

  violation :
      FailureClass → CaseEvalResult F → RuleIndex → Option AnalyzedCase → CaseEvaluationFailure
  violation class r index case =
      let paths = failed_paths r.assertion_scores in
      let blame = blame_paths index (assertions_of case) paths ([], []) in
      record {
        case_id = r.case_id;
        failure_class = class;
        matched_rule_ids = [];
        violated_rule_ids = or_unattributed blame.1 paths;
        failed_assertion_paths = paths;
        failed_assertion_types = blame.0;
      }

  match : FailureClass → CaseEvalResult F → RuleIndex → Option AnalyzedCase → CaseEvaluationFailure
  match class r index case = record {
    case_id = r.case_id;
    failure_class = class;
    matched_rule_ids = matched_rules index (assertions_of case) [];
    violated_rule_ids = [];
    failed_assertion_paths = [];
    failed_assertion_types = [];
  }

  -- The record that `_add_structured_failure` appends.
  unfoldable pub structured_failure :
      FailureClass → CaseEvalResult F → RuleIndex → Option AnalyzedCase → CaseEvaluationFailure
  unfolding violation match matched_rules blame_paths blame_assertion assertions_of assertion_at
      failed_paths or_unattributed append_type has_type same_type append_all_new ids_under ◌>>=◌
  structured_failure fixed r index case = match fixed r index case
  structured_failure unchanged_correct r index case = match unchanged_correct r index case
  structured_failure broken r index case = violation broken r index case
  structured_failure unchanged_wrong r index case = violation unchanged_wrong r index case

  -- `_case_entry`
  pub record CaseEntry : Type 0 where
    pub case_id : String
    pub score : F
    pub passed : Bool
    pub malformed : Bool
    pub baseline : Option (F × Bool)

  pub record FailureAnalysisResult : Type 0 where
    pub fixed : List CaseEntry
    pub broken : List CaseEntry
    pub unchanged_passing : List CaseEntry
    pub unchanged_failing : List CaseEntry
    pub structured_failures : List CaseEvaluationFailure

  unfoldable pub empty_result : FailureAnalysisResult
  empty_result = record {
    fixed = [];
    broken = [];
    unchanged_passing = [];
    unchanged_failing = [];
    structured_failures = [];
  }

  baseline_part : Option (CaseEvalResult F) → Option (F × Bool)
  baseline_part none = none
  baseline_part (some b) = some (b.score, b.passed)

  unfoldable pub case_entry : CaseEvalResult F → Option (CaseEvalResult F) → CaseEntry
  unfolding baseline_part
  case_entry current baseline = record {
    case_id = current.case_id;
    score = current.score;
    passed = current.passed;
    malformed = current.malformed;
    baseline = baseline_part baseline;
  }

  -- The lists that an entry and a record are appended to, by the case's class. `structured` is
  -- `want_structured`.
  unfoldable pub add_class :
      FailureClass
      → CaseEntry
      → List CaseEvaluationFailure
      → FailureAnalysisResult
      → FailureAnalysisResult
  add_class FailureClass.fixed entry new r = record r {
    fixed = r.fixed ++ entry ∷ [];
    structured_failures = r.structured_failures ++ new;
  }
  add_class FailureClass.broken entry new r = record r {
    broken = r.broken ++ entry ∷ [];
    structured_failures = r.structured_failures ++ new;
  }
  add_class FailureClass.unchanged_correct entry new r = record r {
    unchanged_passing = r.unchanged_passing ++ entry ∷ [];
    structured_failures = r.structured_failures ++ new;
  }
  add_class FailureClass.unchanged_wrong entry new r = record r {
    unchanged_failing = r.unchanged_failing ++ entry ∷ [];
    structured_failures = r.structured_failures ++ new;
  }

  -- The class of a case that both evaluations have, by whether the baseline and the prompt pass it.
  abbrev pub class_of : Bool → Bool → FailureClass
  class_of false true = FailureClass.fixed
  class_of true false = FailureClass.broken
  class_of true true = FailureClass.unchanged_correct
  class_of false false = FailureClass.unchanged_wrong

  abbrev pub class_alone : Bool → FailureClass
  class_alone true = FailureClass.unchanged_correct
  class_alone false = FailureClass.unchanged_wrong

  -- What a run is asked to record: nothing, or the failures with the rules' index.
  structured :
      Option RuleIndex
      → List AnalyzedCase
      → FailureClass
      → CaseEvalResult F
      → List CaseEvaluationFailure
  structured none cases class d = []
  structured (some index) cases class d =
      structured_failure class d index (last_with (λ c. c.id) d.case_id cases) ∷ []

  -- The body of the loop over all ids.
  unfoldable pub analyze_case :
      Option RuleIndex
      → List AnalyzedCase
      → Option (CaseEvalResult F)
      → Option (CaseEvalResult F)
      → FailureAnalysisResult
      → FailureAnalysisResult
  unfolding add_class structured case_entry
  analyze_case index cases none none r = r
  analyze_case index cases none (some d) r =
      add_class (class_alone d.passed) (case_entry d none)
        (structured index cases (class_alone d.passed) d) r
  analyze_case index cases (some b) none r =
      add_class FailureClass.unchanged_wrong (case_entry b (some b)) [] r
  analyze_case index cases (some b) (some d) r =
      add_class (class_of b.passed d.passed) (case_entry d (some b))
        (structured index cases (class_of b.passed d.passed) d) r

  unfoldable pub all_ids : List (CaseEvalResult F) → List (CaseEvalResult F) → List String
  unfolding append_all_new
  all_ids baseline distilled =
      append_all_new (map (λ r. r.case_id) distilled)
        (append_all_new (map (λ r. r.case_id) baseline) [])

  unfoldable pub analyze_ids :
      Option RuleIndex
      → List AnalyzedCase
      → List (CaseEvalResult F)
      → List (CaseEvalResult F)
      → List String
      → FailureAnalysisResult
      → FailureAnalysisResult
  unfolding analyze_case last_with
  analyze_ids index cases baseline distilled [] r = r
  analyze_ids index cases baseline distilled (id ∷ ids) r =
      analyze_ids index cases baseline distilled ids (
        analyze_case index cases (last_with (λ x. x.case_id) id baseline)
          (last_with (λ x. x.case_id) id distilled) r)

  -- Without a baseline, each result of the prompt by itself.
  unfoldable pub analyze_alone :
      Option RuleIndex
      → List AnalyzedCase
      → List (CaseEvalResult F)
      → FailureAnalysisResult
      → FailureAnalysisResult
  unfolding analyze_case
  analyze_alone index cases [] r = r
  analyze_alone index cases (d ∷ distilled) r =
      analyze_alone index cases distilled (analyze_case index cases none (some d) r)

  -- `baseline` and `rules` are `none` where the source's argument is None.
  unfoldable pub analyze_failures :
      Option (List (CaseEvalResult F))
      → List (CaseEvalResult F)
      → Option (List (Rule F))
      → List AnalyzedCase
      → FailureAnalysisResult
  unfolding analyze_ids analyze_alone all_ids empty_result build_outcome_to_rule_ids
  analyze_failures none distilled rules cases =
      analyze_alone (rules >>= λ rs. some (build_outcome_to_rule_ids rs)) cases distilled
        empty_result
  analyze_failures (some baseline) distilled rules cases =
      analyze_ids (rules >>= λ rs. some (build_outcome_to_rule_ids rs)) cases baseline distilled
        (all_ids baseline distilled) empty_result
