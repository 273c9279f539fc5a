-- ===== src/Context.antt =====
-- task_context/: what a model is given to read.
pub mod Budget
mod Tests
