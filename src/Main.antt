-- ===== src/Main.antt =====
-- The main contract (contract.rs) and the administration contract (admin.rs) that calls it.
pub mod State
pub mod Handlers
pub mod Events
pub mod Queries
pub mod Requests
pub mod Pages
pub mod Answers
pub mod Reading
pub mod Adding
pub mod Control
pub mod Administration
pub mod Parting
pub mod Admin
mod Tests
