-- ===== src/Evaluation.antt =====
-- The split policy, the quality gates and the choice of a strategy: src/rulekiln/pipeline.
pub mod Cases
pub mod Splits
pub mod Gates
pub mod Golden
pub mod Passing
pub mod Regressions
pub mod Select
pub mod Ties
pub mod Picks
pub mod Chosen
pub mod Tests
