-- ===== src/Model.antt =====
-- contracts/rust/src/model.rs: the contract state machine in Rust.
pub mod Types
pub mod Notes
pub mod State
pub mod Assets
pub mod Block
pub mod Submit
pub mod Spent
pub mod Admission
pub mod Rounds
pub mod Acceptance
pub mod Traces
pub mod DoubleSpend
pub mod Registry
pub mod Deposits
pub mod RootQueue
pub mod Roots
mod Tests
