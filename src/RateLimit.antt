-- ===== src/RateLimit.antt =====
-- src/rulekiln/providers/rate_limiter.py: the sliding window of requests per minute.
pub mod Window
pub mod Bound
pub mod Tests
