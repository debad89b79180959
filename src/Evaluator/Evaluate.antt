-- ===== src/Evaluator/Evaluate.antt =====
-- `evaluate_prompt` of src/rulekiln/pipeline/evaluator.py as `_evaluate_prompt_strategy` of
-- src/rulekiln/workers/distillation_worker.py calls it: each new result is stored and committed, and
-- the process may die at any of these commits. The student is a function of the case. The metrics are
-- computed from the returned results, and every case is one of the payload's.
pub mod Lookup
pub mod Resume
use rule_kiln.Prelude.{
  ℕ, zero, suc, Bool, true, false, String, Option, none, some, is_some, List, [], ◌∷◌,
  if◌then◌else◌, map, last_with, or_else, ◌>>=◌,
}
use mathlib.Core.Option
use rule_kiln.Numbers.{Floats}
use rule_kiln.Evaluator.Scoring.{Python, Output, EvalCase, CaseResult, score_case}
use rule_kiln.Evaluator.Results.{
  RunKey, CaseColumns, EvalCaseResultRecord, build_eval_case_upsert_payload,
  eval_case_record_to_schema, upsert_eval_case_result, get_eval_case_results,
}

module _ (fl : Floats) (python : Python) where
  abbrev pub Row : Type 0
  Row = EvalCaseResultRecord fl python

  -- What an evaluation draws from outside: its key, the student's answer to a case with whether it is
  -- malformed, `json.dumps`, and `case_by_id` for the columns that are stored with a result.
  pub record Evaluation : Type 0 where
    pub run : RunKey
    pub student : EvalCase fl python → Option (Output python) × Bool
    pub dumps : Output python → String
    pub columns : String → CaseColumns fl python

  -- `case_result_by_id[id]`, the entries standing in any order under different ids.
  unfoldable pub result_of : String → List (CaseResult fl python) → Option (CaseResult fl python)
  unfolding last_with
  result_of id results = last_with (λ r. r.case_id) id results

  unfoldable pub completed_case_results : RunKey → List Row → List (CaseResult fl python)
  unfolding get_eval_case_results eval_case_record_to_schema
  completed_case_results run rows =
      map (eval_case_record_to_schema fl python) (get_eval_case_results fl python run rows)

  unfoldable pub score : Evaluation → EvalCase fl python → Option (CaseResult fl python)
  unfolding score_case
  score e case = score_case fl python case (e.student case).0 (e.student case).1

  unfoldable pub store : Evaluation → CaseResult fl python → List Row → List Row
  unfolding upsert_eval_case_result build_eval_case_upsert_payload
  store e r rows =
      upsert_eval_case_result fl python
        (build_eval_case_upsert_payload fl python e.dumps e.run (e.columns r.case_id) r) rows

  -- The loop over the cases, for a process that lives to make `n` commits: the rows that it leaves, and
  -- the results by id unless it has died or raised.
  abbrev pub Loop : Type 0
  Loop = List Row × Option (List (CaseResult fl python))

  -- Storing a new result, and what follows the commit.
  persist :
      Evaluation
      → Option (CaseResult fl python)
      → ℕ
      → List (CaseResult fl python)
      → List Row
      → (ℕ → List (CaseResult fl python) → List Row → Loop)
      → Loop
  persist e none n results rows next = (rows, none)
  persist e (some r) zero results rows next = (rows, none)
  persist e (some r) (suc n) results rows next = next n (r ∷ results) (store e r rows)

  unfoldable pub evaluate_cases :
      Evaluation → List (EvalCase fl python) → ℕ → List (CaseResult fl python) → List Row → Loop
  unfolding persist result_of score store
  evaluate_cases e [] n results rows = (rows, some results)
  evaluate_cases e (case ∷ cases) n results rows =
      let next = evaluate_cases e cases in
      if is_some (result_of case.id results)
      then next n results rows
      else persist e (score e case) n results rows next

  unfoldable pub prepend :
      Option (CaseResult fl python) → List (CaseResult fl python) → List (CaseResult fl python)
  prepend none rest = rest
  prepend (some r) rest = r ∷ rest

  -- `[case_result_by_id[case.id] for case in cases if case.id in case_result_by_id]`
  unfoldable pub case_results :
      List (EvalCase fl python) → List (CaseResult fl python) → List (CaseResult fl python)
  unfolding result_of prepend
  case_results [] results = []
  case_results (case ∷ cases) results =
      let rest = case_results cases results in prepend (result_of case.id results) rest

  -- One process: the rows it leaves, and its case results if it comes to an end.
  unfoldable pub evaluate : Evaluation → List (EvalCase fl python) → ℕ → List Row → Loop
  unfolding evaluate_cases completed_case_results case_results
  evaluate e cases n rows =
      let (rows', results) = evaluate_cases e cases n (completed_case_results e.run rows) rows in
      (rows', Option.map (case_results cases) results)

  -- The rows that a series of processes leaves, each living for so many commits.
  unfoldable pub evaluate_all :
      Evaluation → List (EvalCase fl python) → List ℕ → List Row → List Row
  unfolding evaluate
  evaluate_all e cases [] rows = rows
  evaluate_all e cases (n ∷ ns) rows = evaluate_all e cases ns (evaluate e cases n rows).0
