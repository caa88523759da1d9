-- ===== src/Attempt.antt =====
-- attempt_transaction.py: the Git transaction around one process that may touch the candidate.
pub mod Ownership
pub mod Audit
pub mod Transaction
pub mod Rollback
pub mod Steady
pub mod Recoverable
pub mod Recovery
pub mod Proven
pub mod Gaps
