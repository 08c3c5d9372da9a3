-- ===== src/Products.antt =====
-- Products and their owners: product_registry.rs, product_transfer.rs and product_query.rs, together
-- with the authorization contract that they call (all under smart-contract/contracts/src).
pub mod State
pub mod Registry
pub mod Transfer
pub mod Moves
pub mod Requests
pub mod Writes
pub mod Invariant
pub mod Bypass
pub mod Ownership
pub mod Ledger
pub mod Batches
pub mod Chunks
pub mod Completion
pub mod Queries
mod Tests
