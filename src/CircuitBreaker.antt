-- ===== src/CircuitBreaker.antt =====
-- The circuit breaker (smart-contract/contracts/src/circuit_breaker.rs): guardians pause the suite at
-- once or by votes, the admin lifts a pause, and other contracts ask what a pause blocks.
pub mod State
pub mod Handlers
pub mod Queries
pub mod Blocking
pub mod Requests
pub mod Guardians
pub mod Votes
pub mod Execution
mod Tests
