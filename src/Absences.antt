-- ===== src/Absences.antt =====
-- The leave register (pages/Absences.tsx): the paged list, the form and the holiday calendar.
pub mod Register
pub mod Form
pub mod Calendar
pub mod Changes
pub mod Holidays
mod Tests
