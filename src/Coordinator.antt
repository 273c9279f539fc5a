-- ===== src/Coordinator.antt =====
-- execution_coordination/coordinator.py: the attempts of a task, and what they may do.
pub mod Effects
pub mod Escalation
pub mod Budgets
pub mod Outcomes
mod Tests
