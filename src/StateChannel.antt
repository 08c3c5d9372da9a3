-- ===== src/StateChannel.antt =====
-- The IoT state channel (smart-contract/contracts/src/state_channel.rs): two parties anchor states that
-- both have signed, close the channel, dispute a stale close, and finalize.
pub mod State
pub mod Message
pub mod Handlers
pub mod Requests
pub mod Invariant
pub mod Safety
pub mod History
pub mod Dispute
mod Tests
