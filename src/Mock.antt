-- ===== src/Mock.antt =====
-- The network of wallet/src/mocks.rs: the contract's model with a query service of its own.
pub mod Network
pub mod Ledgers
pub mod Tracking
pub mod History
pub mod Posting
pub mod Backend
pub mod Sponsoring
mod Tests
mod WalletTests
