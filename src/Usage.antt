-- ===== src/Usage.antt =====
-- usage.py: the canonical record of token usage, and its sums.
pub mod Record
pub mod Canonical
