-- ===== src/Optimizers.antt =====
-- The optimizers of src/rulekiln/workers/distillation_worker.py that run once a strategy is selected:
-- the leave-one-rule-out ablation, and the comparison of pruning modes.
pub mod Evals
pub mod Ablation
pub mod Rounds
pub mod Resumed
pub mod TwoPass
pub mod Rows
pub mod Tests
