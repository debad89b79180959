-- ===== src/Pruning.antt =====
-- src/rulekiln/pipeline/rule_pruning.py: the choice of the rules that fit a prompt's budget.
pub mod Ranking
pub mod Prune
pub mod Partition
pub mod Budget
pub mod Sorted
pub mod Selection
pub mod Tests
