-- ===== src/Service.antt =====
-- crates/mgmt-service: due reminders (`Reminders`), focus sessions (`Focus`), the caches of a vault with
-- their mutations and undo history (`Context`).
pub mod Reminders
pub mod Focus
pub mod Context
