-- ===== src/Multisig.antt =====
-- The multi-signature contract (smart-contract/contracts/src/multisig.rs): signers submit a proposal,
-- approve or reject it, and execute it once it is approved and its time lock is over.
pub mod State
pub mod Handlers
pub mod Requests
pub mod Invariant
pub mod Writes
pub mod Safety
pub mod Execution
pub mod Progress
mod Tests
