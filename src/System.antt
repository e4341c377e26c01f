-- ===== src/System.antt =====
-- pages/System.tsx with the cards that it shows (components/WriteSessionControl.tsx and
-- components/SchedulerControl.tsx).
pub mod WriteSession
pub mod Scheduler
pub mod Password
pub mod Operators
pub mod Reports
pub mod Departments
mod Tests
