-- ===== src/Baselines.antt =====
-- src/rulekiln/pipeline/baseline_strategies.py: the examples and the predictions of the strategies
-- that distilled prompts are compared with.
pub mod Examples
pub mod Counts
pub mod Size
pub mod Budget
pub mod Lanes
pub mod Labels
pub mod Balance
pub mod Reorder
pub mod Nearest
pub mod Retrieval
pub mod Votes
pub mod Majority
pub mod Tests
