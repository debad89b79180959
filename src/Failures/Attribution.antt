-- ===== src/Failures/Attribution.antt =====
-- Cases as the failure analysis reads them, and the rules by the outcomes that they are about, of
-- src/rulekiln/pipeline/failure_analysis.py. A case has, of each assertion, the type and the text of
-- its value, which is empty for no value.
use rule_kiln.Prelude.{
  ℕ, zero, suc, Bool, true, false, String, Option, none, some, List, [], ◌∷◌, ◌++◌, if◌then◌else◌,
  str_eq, mem_str,
}
use rule_kiln.Rules.{Rule, OutcomeCondition}
use rule_kiln.Evaluator.Scoring.{AssertionType}

abbrev pub unattributed_rule_id : String
unattributed_rule_id = "__unattributed__"

pub data FailureClass : Type 0 where
  fixed broken unchanged_wrong unchanged_correct : FailureClass

pub record CaseEvaluationFailure : Type 0 where
  pub case_id : String
  pub failure_class : FailureClass
  pub matched_rule_ids : List String
  pub violated_rule_ids : List String
  pub failed_assertion_paths : List String
  pub failed_assertion_types : List AssertionType

pub record LabelledAssertion : Type 0 where
  pub kind : AssertionType
  pub label : String

pub record AnalyzedCase : Type 0 where
  pub id : String
  pub assertions : List LabelledAssertion

-- `if x not in xs: xs.append(x)`
unfoldable pub append_new : String → List String → List String
append_new x xs = if mem_str x xs then xs else xs ++ x ∷ []

unfoldable pub append_all_new : List String → List String → List String
unfolding append_new
append_all_new [] xs = xs
append_all_new (y ∷ ys) xs = append_all_new ys (append_new y xs)

abbrev pub RuleIndex : Type 0
RuleIndex = List (String × List String)

-- `index.get(label, [])`
unfoldable pub ids_under : String → RuleIndex → List String
ids_under label [] = []
ids_under label ((l, ids) ∷ index) = if str_eq l label then ids else ids_under label index

unfoldable pub index_rule : String → String → RuleIndex → RuleIndex
unfolding append_new
index_rule label id [] = (label, append_new id []) ∷ []
index_rule label id ((l, ids) ∷ index) =
    if str_eq l label then (l, append_new id ids) ∷ index else (l, ids) ∷ index_rule label id index

pub index_outcomes : String → List (String × OutcomeCondition) → RuleIndex → RuleIndex
index_outcomes id [] index = index
index_outcomes id ((key, oc) ∷ ocs) index = index_outcomes id ocs (index_rule oc.outcome id index)

unfoldable pub index_rules : {F : Type 0} → List (Rule F) → RuleIndex → RuleIndex
unfolding index_outcomes index_rule
index_rules [] index = index
index_rules (r ∷ rules) index =
    index_rules rules
      (if str_eq r.id "" then index else index_outcomes r.id r.outcome_conditions index)

unfoldable pub build_outcome_to_rule_ids : {F : Type 0} → List (Rule F) → RuleIndex
unfolding index_rules
build_outcome_to_rule_ids rules = index_rules rules []

-- The rules that govern the outcomes which a case expects.
unfoldable pub matched_rules : RuleIndex → List LabelledAssertion → List String → List String
unfolding append_all_new ids_under
matched_rules index [] matched = matched
matched_rules index (a ∷ rest) matched =
    matched_rules index rest (append_all_new (ids_under a.label index) matched)

unfoldable pub assertion_at : ℕ → List LabelledAssertion → Option LabelledAssertion
assertion_at i [] = none
assertion_at zero (a ∷ rest) = some a
assertion_at (suc i) (a ∷ rest) = assertion_at i rest

unfoldable pub same_type : AssertionType → AssertionType → Bool
same_type AssertionType.must_include AssertionType.must_include = true
same_type AssertionType.must_not_include AssertionType.must_not_include = true
same_type AssertionType.must_equal AssertionType.must_equal = true
same_type AssertionType.must_match_regex AssertionType.must_match_regex = true
same_type AssertionType.json_schema AssertionType.json_schema = true
same_type AssertionType.semantic_match AssertionType.semantic_match = true
same_type AssertionType.llm_judge AssertionType.llm_judge = true
same_type _ _ = false

unfoldable pub has_type : AssertionType → List AssertionType → Bool
has_type t [] = false
has_type t (u ∷ types) = if same_type t u then true else has_type t types

unfoldable pub append_type : AssertionType → List AssertionType → List AssertionType
append_type t types = if has_type t types then types else types ++ t ∷ []
