-- ===== src/Statistics.antt =====
-- src/rulekiln/pipeline/statistics.py: label counts and paired comparisons.
pub mod Labels
pub mod Paired
pub mod Totals
pub mod Tests
