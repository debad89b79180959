-- ===== src/Refinement.antt =====
-- src/rulekiln/pipeline/rule_refinement.py, src/rulekiln/agents/rule_conflict_review.py and the
-- refinement loop of src/rulekiln/workers/distillation_worker.py.
pub mod Actions
pub mod Apply
pub mod Loop
pub mod Progress
pub mod Selected
pub mod Resume
pub mod Tests
