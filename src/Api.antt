-- ===== src/Api.antt =====
-- The server of a wallet, wallet/src/wallet-api/routes.rs, and its loader, wallet/src/loader.rs.
pub mod Values
pub mod Session
pub mod Routes
pub mod Assets
pub mod Attempts
pub mod Keystores
pub mod LastPath
pub mod Unwrapping
mod Tests
