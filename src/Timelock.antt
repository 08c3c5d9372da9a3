-- ===== src/Timelock.antt =====
-- The timelock contract (smart-contract/contracts/src/timelock.rs): signers propose an action,
-- approve it, and execute it in a window of time; it then calls another contract.
pub mod State
pub mod Actions
pub mod Handlers
pub mod Requests
pub mod Invariant
pub mod Execution
pub mod Final
pub mod Lifecycle
mod Tests
