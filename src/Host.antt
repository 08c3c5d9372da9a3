-- ===== src/Host.antt =====
-- What every contract of smart-contract/contracts/src takes from the Soroban host: the invocation's
-- context, the outcome of a call, checked arithmetic and keyed storage; and contracts/src/error.rs.
pub mod Errors
pub mod Call
