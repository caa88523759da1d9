-- ===== src/Machine.antt =====
-- models.py: the run state machine.
pub mod Phase
pub mod State
pub mod Transition
pub mod Projection
pub mod Clean
pub mod Graph
pub mod Legal
pub mod Runs
pub mod Resuming
pub mod Live
