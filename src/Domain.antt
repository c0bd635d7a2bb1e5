-- ===== src/Domain.antt =====
-- The domain crate: the data model and its pure behaviour.
pub mod Instant
pub mod Recurrence
pub mod Event
pub mod Task
pub mod Project
pub mod Workflow
pub mod Reminder
pub mod Filter
pub mod Occurrence
