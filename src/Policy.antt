-- ===== src/Policy.antt =====
-- recovery_policy.py: which failure belongs to which class, and what a class may do next.
pub mod Table
pub mod Codes
pub mod Classify
pub mod Budget
pub mod Detail
pub mod Boundaries
