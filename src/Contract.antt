-- ===== src/Contract.antt =====
-- planning/normalization.py: the normalization of a step contract against a tree.
pub mod Step
pub mod Normalize
pub mod Effective
pub mod Coherence
pub mod Readable
