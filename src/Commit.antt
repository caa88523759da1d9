-- ===== src/Commit.antt =====
pub mod Safety
pub mod Record
pub mod Gated
pub mod ReadBack
pub mod Settled
