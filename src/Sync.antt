-- ===== src/Sync.antt =====
-- How the services that follow the contract's events stay in step with it: the query service
-- (eqs/src/eth_polling.rs) after the calls of contracts/rust/src/model.rs.
pub mod Trees
pub mod Outputs
pub mod Handling
pub mod Following
pub mod Service
pub mod Samples
mod Tests
