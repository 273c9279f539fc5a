-- ===== src/Journal.antt =====
-- kernel/events/writer_generation.py and kernel/events/effect_journal.py.
pub mod Error
pub mod Generation
pub mod Record
pub mod Read
pub mod Store
pub mod Reserve
pub mod Settle
pub mod Execute
pub mod Changes
pub mod Calls
mod Tests
