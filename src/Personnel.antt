-- ===== src/Personnel.antt =====
-- The personnel pages (pages/Personnel.tsx and the components that it uses).
pub mod Roster
pub mod Offboard
pub mod Form
pub mod Import
pub mod Policy
pub mod Names
pub mod Combobox
pub mod Listing
pub mod Hub
mod Tests
