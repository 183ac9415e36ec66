-- ===== src/Relay.antt =====
-- `TransactionRelay` of src/transaction_relay.cpp: it prepares the proofs of Core's unconfirmed
-- transactions and publishes them in the cache.
pub mod Run
pub mod Services
pub mod Prepare
pub mod Inventory
pub mod Poll
pub mod Withdrawal
pub mod Calls
pub mod Spent
pub mod Inputs
pub mod Verified
pub mod Current
pub mod Published
pub mod Candidates
pub mod Noted
pub mod Recovery
