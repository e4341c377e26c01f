-- ===== src/Hooks/Stream.antt =====
-- hooks/useAttendanceStream.ts: the live attendance feed.
pub mod Events
pub mod Framing
pub mod Connection
mod Tests
