-- ===== src/Overview.antt =====
-- The pages that show attendance: pages/Dashboard.tsx and pages/DailyRoster.tsx.
pub mod Weekdays
pub mod Roster
mod Tests
