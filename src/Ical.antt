-- ===== src/Ical.antt =====
-- The iCalendar crate: escaping and folding (`Value`), lines and components (`Parser`), date-times
-- (`Dates`), recurrence rules (`Rrule`).
pub mod Value
pub mod Parser
pub mod Dates
pub mod Rrule
