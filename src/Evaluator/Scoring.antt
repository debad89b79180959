-- ===== src/Evaluator/Scoring.antt =====
-- `_score_assertion` and `_score_case` of src/rulekiln/pipeline/evaluator.py. What Python does with
-- JSON values and regular expressions is a parameter; `search` gives nothing where `re.search` raises.
use text.Mathlib.Text.{find?}
use Prim.Native.String.{◌++◌ as str_append}
use rule_kiln.Prelude.{
  ℕ, suc, Bool, true, false, not, String, Option, none, some, List, [], ◌∷◌, ◌++◌, ◌≡◌, arith,
  if◌then◌else◌, str_eq, is_some, decimal, ◌>>=◌,
}
use rule_kiln.Numbers.{Floats}

pub record Python : Type 1 where
  pub Json : Type 0
  pub of_text : String → Json
  pub of_fields : List (String × Json) → Json
  pub str : Json → String
  pub equal : Json → Json → Bool
  pub search : String → String → Option Bool
  -- A JSON string's text, and whether a text is blank after `strip()`.
  pub text_of : Json → Option String
  pub is_blank : String → Bool

pub data AssertionType : Type 0 where
  must_include must_not_include must_equal must_match_regex : AssertionType
  json_schema semantic_match llm_judge : AssertionType

module _ (python : Python) where
  open python use {Json, of_text, of_fields, str, equal, search}

  -- A student's output: a text or the fields of an object, whose values are scalars.
  pub data Output : Type 0 where
    plain : String → Output
    fields : List (String × Json) → Output

  abbrev to_json : Output → Json
  to_json (plain s) = of_text s
  to_json (fields fs) = of_fields fs

  -- `target[part]`
  unfoldable pub field_of : String → List (String × Json) → Option Json
  field_of part [] = none
  field_of part ((k, v) ∷ fs) = if str_eq k part then some v else field_of part fs

  -- The target of a path, given as its parts; no parts, for no path and the empty one, mean the whole.
  -- A field's value is a scalar, so that a second part finds nothing.
  unfoldable pub resolve : List String → Output → Option Json
  unfolding field_of
  resolve [] actual = some (to_json actual)
  resolve (part ∷ parts) (plain s) = some (of_text s)
  resolve (part ∷ []) (fields fs) = field_of part fs
  resolve (part ∷ next ∷ parts) (fields fs) = none

  includes : Json → Json → Bool
  includes target value = is_some (find? (str target) (str value))

module _ (fl : Floats) (python : Python) where
  open fl use {F, lt, of_ℕ, add, mul, div}
  open python use {Json, of_text, of_fields, str, equal, search}

  pub record EvaluationAssertion : Type 0 where
    pub kind : AssertionType
    pub path : List String
    pub value : Json
    pub weight : F

  pub record EvalCase : Type 0 where
    pub id : String
    pub assertions : List EvaluationAssertion

  -- `CaseEvalResult` with all its fields.
  pub record CaseResult : Type 0 where
    pub case_id : String
    pub score : F
    pub passed : Bool
    pub malformed : Bool
    pub assertion_scores : List (String × F)
    pub actual_output : Option (Output python)
    pub error : Option String

  abbrev points : Bool → F
  points true = of_ℕ 1
  points false = of_ℕ 0

  -- The tests on a target, by the assertion's type.
  score_target : AssertionType → Json → Json → Option F
  score_target AssertionType.must_equal value target = some (points (equal target value))
  score_target AssertionType.must_include value target =
      some (points (includes python target value))
  score_target AssertionType.must_not_include value target =
      some (points (not (includes python target value)))
  score_target AssertionType.must_match_regex value target =
      search (str value) (str target) >>= λ found. some (points found)
  score_target _ value target = some (of_ℕ 1)

  score_resolved : AssertionType → Json → Option Json → Option F
  score_resolved kind value none = some (of_ℕ 0)
  score_resolved kind value (some target) = score_target kind value target

  unfoldable pub score_assertion : EvaluationAssertion → Output python → Option F
  unfolding score_resolved score_target includes resolve ◌>>=◌
  score_assertion a actual = score_resolved a.kind a.value (resolve python a.path actual)

  -- The loop over the assertions, from the `i`-th on: the scores, the weighted sum and the weight.
  score_assertions :
      Output python
      → ℕ
      → List EvaluationAssertion
      → List (String × F)
      → F
      → F
      → Option (List (String × F) × F × F)
  score_assertions actual i [] scores sum total = some (scores, sum, total)
  score_assertions actual i (a ∷ rest) scores sum total = score_assertion a actual >>= λ score.
      score_assertions actual (suc i) rest
        (scores ++ (str_append "assertion_" (decimal i), score) ∷ []) (add sum (mul score a.weight))
        (add total a.weight)

  malformed_result : String → Option (Output python) → CaseResult
  malformed_result id actual = record {
    case_id = id;
    score = of_ℕ 0;
    passed = false;
    malformed = true;
    assertion_scores = [];
    actual_output = actual;
    error = none;
  }

  scored_result : String → Output python → List (String × F) × F × F → CaseResult
  scored_result id actual (scores, sum, total) =
      let final_score = if lt (of_ℕ 0) total then div sum total else of_ℕ 1 in
      record {
        case_id = id;
        score = final_score;
        passed = not (lt final_score (of_ℕ 1));
        malformed = false;
        assertion_scores = scores;
        actual_output = some actual;
        error = none;
      }

  -- `none` where an assertion raises.
  unfoldable pub score_case : EvalCase → Option (Output python) → Bool → Option CaseResult
  unfolding score_assertion score_assertions malformed_result scored_result ◌>>=◌
  score_case case none malformed = some (malformed_result case.id none)
  score_case case (some actual) true = some (malformed_result case.id (some actual))
  score_case case (some actual) false =
      score_assertions actual 0 case.assertions [] (of_ℕ 0) (of_ℕ 0) >>= λ scored.
      some (scored_result case.id actual scored)

  -- A case's result is kept under the case's id.
  pub score_case-id :
      (case : EvalCase) (actual : Option (Output python)) (malformed : Bool) (r : CaseResult)
      → score_case case actual malformed ≡ some r
      → r.case_id ≡ case.id
  unfolding score_case
  score_case-id case none malformed r e = ground arith
  score_case-id case (some actual) true r e = ground arith
  score_case-id case (some actual) false r e = ground arith
