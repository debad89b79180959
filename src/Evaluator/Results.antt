-- ===== src/Evaluator/Results.antt =====
-- `EvalCaseResultRecord` of src/rulekiln/db/models.py,
-- `upsert_eval_case_result` and `get_eval_case_results` of
-- src/rulekiln/db/repositories/eval_case_results.py, and the conversions between rows and results in
-- src/rulekiln/workers/distillation_worker.py. The table's unique constraint keeps one row of a key.
use rule_kiln.Prelude.{
  Bool, true, false, ◌&&◌, String, Option, none, some, List, [], ◌∷◌, ◌++◌, ◌≡◌, refl,
  if◌then◌else◌, str_eq, map, keep, any,
}
use rule_kiln.Numbers.{Floats}
use rule_kiln.Evaluator.Scoring.{Python, Output, plain, fields, field_of, CaseResult}

-- The part of a row's key that all cases of one evaluation share.
pub record RunKey : Type 0 where
  pub job_id : String
  pub student_id : String
  pub strategy : String
  pub split : String

unfoldable pub same_run : RunKey → RunKey → Bool
same_run k l =
    str_eq l.job_id k.job_id
    && (str_eq l.student_id k.student_id
        && (str_eq l.strategy k.strategy && str_eq l.split k.split))

module _ (fl : Floats) (python : Python) where
  open fl use {F}

  pub record EvalCaseResultRecord : Type 0 where
    pub run : RunKey
    pub case_id : String
    pub expected_json : Option (python.Json)
    pub actual_json : Option (Output python)
    pub raw_output : Option String
    pub assertion_scores : List (String × F)
    pub passed : Bool
    pub case_score : F
    pub malformed : Bool
    pub invalid_label : Bool
    pub error_type : Option String
    pub error_message : Option String

  -- `_actual_output_to_raw_text`; `dumps` is `json.dumps`.
  unfoldable pub actual_output_to_raw_text :
      (Output python → String) → Option (Output python) → Option String
  actual_output_to_raw_text dumps none = none
  actual_output_to_raw_text dumps (some (plain s)) = some s
  actual_output_to_raw_text dumps (some (fields fs)) = some (dumps (fields fs))

  -- Whether a label is missing, not a text or blank.
  is_no_label : Option python.Json → Bool
  is_no_label none = true
  is_no_label (some label) = elim (python.text_of label) [
    | none ↦ true
    | some s ↦ python.is_blank s
  ]

  -- `is_labelled`: the case's mode is classification or routing.
  unfoldable pub is_invalid_label : Bool → Option (Output python) → Bool
  unfolding is_no_label field_of
  is_invalid_label false actual = false
  is_invalid_label true none = true
  is_invalid_label true (some (fields fs)) = is_no_label (field_of python "label" fs)
  is_invalid_label true (some (plain s)) = python.is_blank s

  -- The columns that come from the case: what it expects, and whether its mode has labels.
  pub record CaseColumns : Type 0 where
    pub expected : Option (python.Json)
    pub is_labelled : Bool

  unfoldable pub build_eval_case_upsert_payload :
      (Output python → String) → RunKey → CaseColumns → CaseResult fl python → EvalCaseResultRecord
  unfolding actual_output_to_raw_text is_invalid_label
  build_eval_case_upsert_payload dumps run case r = record {
    run = run;
    case_id = r.case_id;
    expected_json = case.expected;
    actual_json = r.actual_output;
    raw_output = actual_output_to_raw_text dumps r.actual_output;
    assertion_scores = r.assertion_scores;
    passed = r.passed;
    case_score = r.score;
    malformed = r.malformed;
    invalid_label = is_invalid_label case.is_labelled r.actual_output;
    error_type = if r.malformed then some "MalformedOutput" else none;
    error_message = r.error;
  }

  -- The output of a row: its object or text, and else its raw text.
  read_output : Option (Output python) → Option String → Option (Output python)
  read_output (some o) raw = some o
  read_output none (some s) = some (plain s)
  read_output none none = none

  unfoldable pub eval_case_record_to_schema : EvalCaseResultRecord → CaseResult fl python
  unfolding read_output
  eval_case_record_to_schema row = record {
    case_id = row.case_id;
    score = row.case_score;
    passed = row.passed;
    malformed = row.malformed;
    assertion_scores = row.assertion_scores;
    actual_output = read_output row.actual_json row.raw_output;
    error = row.error_message;
  }

  -- The `where` clause of the upsert's query.
  unfoldable pub same_key : EvalCaseResultRecord → EvalCaseResultRecord → Bool
  same_key new row = same_run new.run row.run && str_eq row.case_id new.case_id

  unfoldable pub upsert_eval_case_result :
      EvalCaseResultRecord → List EvalCaseResultRecord → List EvalCaseResultRecord
  unfolding same_key
  upsert_eval_case_result new rows =
      if any (same_key new) rows
      then map (λ row. if same_key new row then new else row) rows
      else rows ++ new ∷ []

  unfoldable pub get_eval_case_results :
      RunKey → List EvalCaseResultRecord → List EvalCaseResultRecord
  get_eval_case_results run rows = keep (λ row. same_run run row.run) rows

  output_survives :
      (dumps : Output python → String) (o : Option (Output python))
      → read_output o (actual_output_to_raw_text dumps o) ≡ o
  unfolding read_output actual_output_to_raw_text
  output_survives dumps none = refl
  output_survives dumps (some o) = refl

  -- A result that is stored and read back is the same result.
  pub record_to_schema-upsert_payload :
      (dumps : Output python → String) (run : RunKey) (case : CaseColumns)
      (r : CaseResult fl python)
      → eval_case_record_to_schema (build_eval_case_upsert_payload dumps run case r) ≡ r
  unfolding eval_case_record_to_schema build_eval_case_upsert_payload
  record_to_schema-upsert_payload dumps run case r = rw (output_survives dumps r.actual_output) refl
