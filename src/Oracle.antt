-- ===== src/Oracle.antt =====
-- The oracle contract (smart-contract/contracts/src/oracle.rs): reporters send values for a feed, and
-- a value is made of the recent reports that agree.
pub mod State
pub mod Median
pub mod Sorting
pub mod Majority
pub mod Handlers
pub mod Sources
pub mod Accepting
pub mod Rounds
pub mod Snapshots
pub mod Requests
pub mod Registration
pub mod Invariant
pub mod Reports
pub mod Starvation
pub mod Deviation
mod Tests
