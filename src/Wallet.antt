-- ===== src/Wallet.antt =====
-- The wallet's side of the services, wallet/src/backend.rs.
pub mod Stream
pub mod Delivery
pub mod Progress
pub mod Backend
pub mod Ethereum
pub mod Waits
pub mod Sponsors
pub mod Opening
pub mod Keys
pub mod Interface
pub mod Extension
pub mod Watching
pub mod Burning
mod Tests
