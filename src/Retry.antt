-- ===== src/Retry.antt =====
-- task_retry/: the attempt budget, the identity of a retry, the bounded reconciliation policy and the retry service.
pub mod Budget
pub mod Identity
pub mod Packet
pub mod Reconciliation
pub mod Service
mod Tests
