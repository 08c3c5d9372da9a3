-- ===== src/Lib.antt =====
-- Verification of the ChainLogistics smart contracts (smart-contract/contracts/src).
--
-- The program is a suite of Soroban contracts in Rust. This library models the contracts that govern
-- the suite and that settle high-frequency tracking:
--
-- - Timelock (timelock.rs): signers propose an administrative action; once a threshold of them has
--   approved it, and a delay is over, a signer executes it within a grace period, and the contract
--   calls the main, the upgrade or an oracle contract in its own name.
-- - Multisig (multisig.rs): signers submit, approve and reject proposals; an approved one is executed
--   after the time lock of its kind by a call of its target. Its re-entrancy lock is that of
--   storage_contract.rs.
-- - CircuitBreaker (circuit_breaker.rs): guardians pause the suite at once or by votes, the admin lifts
--   a pause, and the other contracts ask what a pause blocks.
-- - StateChannel (state_channel.rs): two parties anchor states that both have signed, close the
--   channel, dispute a stale close, and finalize.
-- - Upgrade (upgrade.rs): the administrator, the multisig or the timelock starts, completes, fails and
--   resets an upgrade of the suite, and pauses in an emergency.
-- - Authorization (authorization.rs): which address owns a product, and who else may add events to it.
-- - Tracking (tracking.rs, event_query.rs, the event storage of storage_contract.rs): events are added to
--   a product, numbered and indexed by product and by type, and the query contract pages through
--   them, all, by type, by time, or by a filter.
-- - Products (product_registry.rs, product_transfer.rs, product_query.rs): products are registered,
--   deactivated, reactivated and searched in the registry, and handed over by the transfer contract,
--   alone or in batches by chunks, which calls the authorization contract and then the registry.
-- - Stats (stats.rs) reads the counters of the registry and the events of the tracking contract.
-- - Main (contract.rs, admin.rs): the main contract has an administrator, a pause, and events of its own;
--   its administrator, the multisig and the timelock control it, and the administration contract passes
--   its requests on. Its event storage is laid out as that of Tracking and uses its model.
-- - Oracle (oracle.rs): reporters send values for a feed, and a value is made of the recent reports that
--   are near the median; on failure a fallback is answered.
-- - Quality (quality_control.rs, its part of storage.rs): administrators, sensors, certifications and
--   readings of a product, whose status follows from thresholds, with running statistics.
-- - Validation (validation_contract.rs): the validators that the multisig, the state channel and the
--   registration of products call.
-- - Types (types.rs) holds the records that several contracts share, Host/Errors the codes of error.rs.
--
-- In each contract's folder, State is its persistent storage as a record, one field for a storage key
-- or for a family of keys, with the helpers that read and write it; Handlers holds one function per
-- entry point or private function, by the source's name. A handler is a `Call` (Host/Call): it takes
-- the state to an outcome (a value, an error code, or a panic) and a state. The host hands it a `Ctx`:
-- the ledger's time, the contract's own address, and which addresses have authorised the invocation.
-- Requests makes an invocation of any entry point by any caller at any time a value, so that `run` is
-- an arbitrary sequence of them. The other files of a folder are proofs, named for what they prove.
--
-- Contracts that are called are parameters: a `Callee` says whether a call returns, and an `Outside`
-- which signatures ed25519 accepts and what the main contract answers to `is_paused`. What was
-- called, authorised and published is recorded in the state, the newest first. Governance joins the
-- timelock with the upgrade contract, Governance/Pause and Delivery with the main contract: the
-- callee is there the model of upgrade.rs or contract.rs, by a dispatch on the name of the entry point. In
-- Products the three contracts are one world, with the addresses of the two that are called: a call
-- by a client runs the model of the callee, in its own name and with what the invocation has
-- authorised, and panics where the callee returns an error or is not at the address that the caller
-- has stored. Tracking's queries, Products/Queries and Stats take the contracts that they read as
-- given. A failed invocation is taken back by the host (`committed`) in the steps of Tracking,
-- Products, Main, Quality and Oracle; in the other steps the state that a call leaves on an error
-- stands as the code has left it.
--
-- Addresses and host values are numbers, since the contracts only compare them or pass them on; a
-- map is a function or, where its entries are enumerated, a list; `u64` numbers are natural numbers
-- with each checked addition's bound written out, and `i128` numbers are the integers of Base/Int. All
-- loops are structural; the bounds are the number of chunks that `run_chunks` (Products/Completion)
-- makes a caller send, for which the estimate is enough, and the 20 digits that a `u64` has at most
-- (Quality/Handlers).
--
-- Not modelled: other contracts that answer to the names of the registry or of the authorization
-- contract, at whose addresses Products takes a call to panic; the verifier and the ring signatures,
-- the storage costs and lifetimes of the host, the backend, the SDK, the user interface and the deployment.
pub mod Base
pub mod Host
pub mod Types
pub mod Validation
pub mod Timelock
pub mod Multisig
pub mod CircuitBreaker
pub mod StateChannel
pub mod Tracking
pub mod Products
pub mod Stats
pub mod Main
pub mod Quality
pub mod Oracle
pub mod Upgrade
pub mod Authorization
pub mod Governance
