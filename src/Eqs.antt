-- ===== src/Eqs.antt =====
-- The Ethereum query service, eqs/src: its state, the polling of contract events and the routes.
pub mod Types
pub mod Commit
pub mod Polling
pub mod Routes
pub mod Memos
pub mod Handled
pub mod Index
pub mod Window
pub mod Reading
pub mod Pages
pub mod Hashes
mod Tests
