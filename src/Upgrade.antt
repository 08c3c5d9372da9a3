-- ===== src/Upgrade.antt =====
-- The upgrade contract (smart-contract/contracts/src/upgrade.rs): the administrator, the multisig or the
-- timelock starts, completes, fails and resets an upgrade, and pauses in an emergency.
pub mod State
pub mod Handlers
pub mod Requests
pub mod Versions
pub mod Safety
mod Tests
