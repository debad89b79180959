-- ===== src/Lib.antt =====
-- RuleKiln turns labelled cases into a tested system prompt. A request with a task and its cases is
-- stored as a job; a worker claims it from a queue in Postgres and runs a pipeline that extracts rules
-- with a teacher model, prunes them to a budget, compiles prompts, evaluates them with a student model,
-- checks gates against a baseline, selects a strategy and refines its rules. This library models the
-- parts that decide, and leaves the calls of models, databases and files to parameters.
--
-- The files, and the code each is about (paths from the root of the repository):
--
-- Prelude: the names shared by all files. Tests on numbers and texts, lists measured by native
--   numbers, stable sorting by a strict test, integers, chains of fallible steps, dictionaries.
-- Numbers: the interface of Python's floats, of which only the order of `<` is assumed; it is an
--   order as long as no value is a NaN. Numbers.Whole fills it with integers for the tests.
-- Rules: the rule of src/rulekiln/schemas/pipeline.py.
--
-- Queue: the table of jobs. Job is the row of src/rulekiln/db/models.py, a Table the list of rows.
--   Ops has a function for each queue statement of src/rulekiln/db/repositories/jobs.py (create_job,
--   claim_next_job, renew_lease, complete_job, fail_job, cancel_job, retry_job,
--   apply_job_failure_policy, recover_expired_leases) and for the job handlers of
--   src/rulekiln/ui/routes.py. A statement is atomic; a claim takes as argument which rows other
--   transactions hold locked. Times are whole microseconds. Steps has the relations of all operations
--   in any order, with and without the operator's retry and submission. A failure policy, and a page
--   that acts on a job's status, reads the job and later updates it by id alone: in Steps it acts on
--   what it has read, and other steps may come between the two. Reads is what such a read still tells. Errors is
--   src/rulekiln/workers/error_classification.py, with an exception given by the tested classes that it
--   is an instance of. Worker is a round of src/rulekiln/workers/dbos_worker.py, with the workflow as a
--   parameter. Attempts, Lock, Claim, Policy, Recovery and Hazards prove what their names say.
--
-- Stages: the stages up to the prompts of `_run` in src/rulekiln/workers/distillation_worker.py, on
--   the tables that they write through src/rulekiln/db/repositories/jobs.py. Session is a database
--   session whose process may die at any commit: a run is given the number of commits that it lives to
--   make, and leaves what it has committed. Markers has mark_stage_complete and is_stage_complete,
--   CaseIds the keys of cases, Extract the sequential extraction and a job's history of processes,
--   Collect the batch collect path, Validate the validating stage and Prompts the prompt rows. Once,
--   Covered, Rounds, Complete, History and the children prove what their names say. What a process draws
--   from outside (the teacher's answers, new identifiers) is an argument of each process. Identifiers
--   that `uuid4` makes are taken not to collide.
--
-- Workflow: src/rulekiln/workers/dbos_workflow.py, the sequence of phases that a worker runs. What
--   calls find and whether a phase raises are arguments. The wait for a batch has fuel; a round for
--   each poll up to the first that finds the batch done is enough. Ends and Finished are the proofs. The
--   durable runtime is not modelled.
--
-- Pruning: src/rulekiln/pipeline/rule_pruning.py. Ranking has the scores and the six ranking modes,
--   Prune the screen, the cap and the token budget; Partition, Budget, Sorted and Selection are the proofs.
--   The budgets are naturals, where the source takes any integer.
--   Texts are counted in characters, as by `count_tokens_approx` of
--   src/rulekiln/pipeline/prompt_compiler.py.
--
-- PromptCompiler: src/rulekiln/pipeline/prompt_compiler.py. Sections has the baseline prompt of a task,
--   Compile the blocks of the rules; Order and Blocks are the proofs. Of a task's scaffold and schema
--   the entries that the compiler reads. `str.strip`, `json.dumps` and the hash are parameters.
--
-- Refinement: Actions is src/rulekiln/pipeline/rule_refinement.py and the application of reviews of
--   src/rulekiln/agents/rule_conflict_review.py. Loop is `_run_refinement_loop` of
--   src/rulekiln/workers/distillation_worker.py over an interface of what it calls (the teacher, the
--   compiler, the student, the failure analysis), with the pruning and the application of refinements
--   that the code calls. Its rounds are counted by `refinement_max_iterations`, the bound of the
--   source's `for`, so that no other fuel is needed. The files of a run are a list that rounds read and
--   write.
--
-- Optimizers: `_run_rule_ablation` and `_run_two_pass_optimizer` of
--   src/rulekiln/workers/distillation_worker.py, with the markers of a job and the evaluations that a
--   process holds. Evals has what both read, Ablation and TwoPass the two; Rounds, Resumed and Rows are
--   the proofs. Compiling and evaluating are operations of an interface; the pruning is that of Pruning.
--
-- Evaluation: Splits is src/rulekiln/pipeline/split_policy.py, Gates is
--   src/rulekiln/pipeline/quality_gates.py, Select is `select_strategy_generic` of
--   src/rulekiln/pipeline/strategy_selection.py. The selection reads what the gates return, and the
--   gates read evaluations of the cases that the split policy chose. A violation keeps the numbers that
--   its text prints. The selection assumes of floats that x - x is 0.0, which fails only for an infinity
--   or a NaN, and that its two tolerances are not negative. Golden, Passing, Regressions, Ties, Picks and
--   Chosen are the proofs.
--
-- Evaluator: Scoring is `_score_assertion` and `_score_case` of src/rulekiln/pipeline/evaluator.py,
--   over a record of what Python does with JSON values and regular expressions. Results is the table of
--   src/rulekiln/db/repositories/eval_case_results.py with the conversions of
--   src/rulekiln/workers/distillation_worker.py. Evaluate is `evaluate_prompt` as
--   `_evaluate_prompt_strategy` calls it, for a process that makes a given number of commits; Lookup
--   and Resume are the proofs. The student is a function of the case.
--
-- Baselines: src/rulekiln/pipeline/baseline_strategies.py. Examples has the few-shot selection, whose
--   `while` takes as many passes as examples are asked for at most, since each pass but the last adds
--   one; Counts, Size, Lanes, Labels, Balance and Reorder are its proofs. Budget has the few-shot
--   prompt, whose loop takes a round for each example at most. Nearest and Votes have the retrieval and
--   the nearest neighbours over a distance that is a parameter; Retrieval and Majority are the proofs.
--
-- Failures: src/rulekiln/pipeline/failure_analysis.py. Attribution has the rules by outcome,
--   Analysis the classes of cases and the rules that a failure is laid to, Utility the counts that
--   pruning reads; Classes and Signals are the proofs. The set
--   of all case ids is gone through in the order of the evaluations; AllIds shows what is in it.
--
-- RateLimit: the sliding window of src/rulekiln/providers/rate_limiter.py, with the loop around it
--   as single attempts at times that the clock gives. An attempt reads the clock once, where the source
--   reads it for the check and again for the record.
--
-- Statistics: Labels has the label counts, the accuracy and the macro F1 of
--   src/rulekiln/pipeline/statistics.py, Paired the comparison of two strategies case by case, and
--   Totals what the counts add up to.
--
-- Not modelled: the prompts of the teacher, the adapters of model providers and their errors, HTTP
-- parsing, HTML, artifacts and logs, settings, migrations, since they are text or input and output;
-- exceptions that `except Exception` does not catch, and errors of the database after which a session
-- cannot be used; the commit that stores an evaluation's summary; clustering (numeric libraries),
-- synthesis and the rows of batches among the stages, the other statistics, the evaluator's metrics
-- and usage.
pub mod Prelude
pub mod Numbers
pub mod Rules
pub mod Queue
pub mod Stages
pub mod Workflow
pub mod Pruning
pub mod PromptCompiler
pub mod Refinement
pub mod Evaluation
pub mod Evaluator
pub mod Baselines
pub mod Failures
pub mod Optimizers
pub mod RateLimit
pub mod Statistics
