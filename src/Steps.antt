-- ===== src/Steps.antt =====
pub mod Attempt
pub mod Rung
pub mod Ladder
pub mod Kept
pub mod Spent
pub mod Ended
pub mod Finalize
pub mod Merged
pub mod Recorded
pub mod Authority
pub mod Accept
pub mod Accepted
pub mod Settle
pub mod Settling
pub mod Settled
pub mod Continued
