-- ===== src/Evaluator.antt =====
-- src/rulekiln/pipeline/evaluator.py, the table of results of
-- src/rulekiln/db/repositories/eval_case_results.py, and an evaluation that is taken up again.
pub mod Scoring
pub mod Results
pub mod Evaluate
pub mod Tests
