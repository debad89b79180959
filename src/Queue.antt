-- ===== src/Queue.antt =====
-- The Postgres job queue: src/rulekiln/db/repositories/jobs.py, with the row of
-- src/rulekiln/db/models.py and the operator's handlers of src/rulekiln/ui/routes.py.
pub mod Job
pub mod Table
pub mod Ops
pub mod Steps
pub mod Keys
pub mod Reads
pub mod Lock
pub mod Attempts
pub mod Claim
pub mod Recovery
pub mod Policy
pub mod Hazards
pub mod Errors
pub mod Worker
mod Tests
