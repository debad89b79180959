-- ===== src/Workflow.antt =====
-- src/rulekiln/workers/dbos_workflow.py: the order of the pipeline's phases and the wait for a batch.
pub mod Sequence
pub mod Ends
pub mod Finished
pub mod Tests
