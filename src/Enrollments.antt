-- ===== src/Enrollments.antt =====
-- The enrollment page (pages/Enrollments.tsx).
pub mod Queue
pub mod Workspace
pub mod Transitions
pub mod Labels
pub mod Inspector
pub mod Forms
mod Tests
