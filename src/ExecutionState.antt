-- ===== src/ExecutionState.antt =====
-- execution_state/: the states of the tasks on disk.
pub mod Json
pub mod Ids
pub mod Store
pub mod Archive
pub mod Updates
pub mod Passes
pub mod Writes
pub mod ReadBack
pub mod Newest
mod Tests
