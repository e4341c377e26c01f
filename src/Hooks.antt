-- ===== src/Hooks.antt =====
-- hooks/ of the frontend.
pub mod UseApi
pub mod Stream
