-- ===== src/Faucet.antt =====
-- The faucet's persistent queue of requests, faucet/src/faucet.rs.
pub mod Types
pub mod Index
pub mod Queue
pub mod Replay
pub mod Load
pub mod Bounds
pub mod Breaking
pub mod Splits
pub mod Maintaining
pub mod Workers
pub mod Places
pub mod Once
pub mod Kept
mod Tests
mod BreakingTests
mod WorkerTests
