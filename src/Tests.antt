-- ===== src/Tests.antt =====
-- Runs of the definitions at concrete data, and the theorems applied to it.
mod Sync
mod Domain
mod Ical
mod Rrule
mod Backup
mod Occurrence
mod Web
mod Reminders
mod Driver
mod Tui
mod Focus
mod Context
mod Edits
mod Board
