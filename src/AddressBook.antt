-- ===== src/AddressBook.antt =====
-- The address book, address_book/src/lib.rs: its file store and its requests.
pub mod Files
pub mod Store
pub mod Server
pub mod Refines
pub mod Lookup
pub mod Samples
mod Tests
