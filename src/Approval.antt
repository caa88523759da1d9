-- ===== src/Approval.antt =====
-- approval.py: the durable human decision on a plan.
pub mod Identity
pub mod Artifact
pub mod Bound
pub mod ReadBack
pub mod Once
