-- ===== src/Failures.antt =====
-- src/rulekiln/pipeline/failure_analysis.py: which cases a prompt has fixed and broken, and which rules
-- are held to account for it.
pub mod Attribution
pub mod Analysis
pub mod Utility
pub mod Signals
pub mod AllIds
pub mod Classes
pub mod Tests
