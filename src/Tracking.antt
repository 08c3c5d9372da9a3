-- ===== src/Tracking.antt =====
-- Tracking events: tracking.rs, which appends them, the event indexes of storage_contract.rs, and
-- event_query.rs, which reads them in pages (all under smart-contract/contracts/src).
pub mod State
pub mod Handlers
pub mod History
pub mod Queries
pub mod Requests
pub mod Growth
pub mod Invariant
pub mod Pages
pub mod Answers
mod Tests
