-- ===== src/Store.antt =====
-- The wallet service's store, services/wallet/store.go, with the tables that its SQL works on.
pub mod Schema
pub mod Write
pub mod Commit
pub mod Session
pub mod Query
pub mod Wallets
pub mod Money
mod Tests
pub mod Trace
pub mod Invariant
pub mod Calls
pub mod Alone
pub mod Moves
pub mod Locks
