-- ===== src/Resume.antt =====
-- resume.py: the checkpoint of a run, and whether the run can be resumed at it.
pub mod Checkpoint
pub mod Gate
pub mod Stable
pub mod RoundTrip
pub mod Posture
pub mod Accepted
