-- ===== src/Decision.antt =====
-- execution_coordination/: whether a model has to be called, and what it may be asked.
pub mod Json
pub mod ModelCall
pub mod Bounded
pub mod Authority
mod Tests
