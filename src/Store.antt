-- ===== src/Store.antt =====
-- state.py: `RunStateStore`, the one durable record of a run.
pub mod Disk
pub mod Machine
pub mod Writes
pub mod Written
pub mod ReadBack
pub mod Inversion
pub mod Fields
pub mod Metadata
pub mod Races
pub mod Transitions
pub mod Refused
pub mod Reporting
pub mod Start
