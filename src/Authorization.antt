-- ===== src/Authorization.antt =====
-- The authorization contract (smart-contract/contracts/src/authorization.rs): who owns a product, and who
-- else may add events to it.
pub mod State
pub mod Handlers
pub mod Requests
pub mod Rights
mod Tests
