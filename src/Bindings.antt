-- ===== src/Bindings.antt =====
-- The conversions between the types of jf_cap and those of the contract's generated bindings,
-- contracts/rust/src/types.rs and contracts/rust/src/cape/mod.rs.
pub mod Jf
pub mod Sol
pub mod Fields
pub mod Plonk
pub mod Notes
pub mod Block
mod Laws
mod Words
mod Proofs
mod Returns
mod Samples
mod Tests
