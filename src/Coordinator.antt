-- ===== src/Coordinator.antt =====
-- orchestration/recovery.py: the recovery coordinator of a run.
pub mod Counters
pub mod Admission
pub mod Counting
pub mod Bounded
pub mod Setup
pub mod Retries
pub mod Worker
pub mod Retried
pub mod Answered
pub mod Exit
pub mod Stopping
pub mod Projected
