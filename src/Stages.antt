-- ===== src/Stages.antt =====
-- The extraction part of `_run` in src/rulekiln/workers/distillation_worker.py and the tables it
-- keeps through src/rulekiln/db/repositories/jobs.py: the rows, the run that may stop at any commit,
-- and what a run draws from outside. Rows carry the fields that the modelled code reads or writes.
-- The identifiers that `uuid4` gives are taken not to collide.
pub mod Session
pub mod Markers
pub mod CaseIds
pub mod Extract
pub mod Rows
pub mod Once
pub mod Covered
pub mod Rounds
pub mod Complete
pub mod History
pub mod Collect
pub mod Validate
pub mod Prompts
pub mod Tests
