-- ===== src/Api.antt =====
-- api/client.ts of the frontend: the HTTP client and its calls.
pub mod Json
pub mod Query
pub mod Request
pub mod Files
pub mod Calls
mod Tests
