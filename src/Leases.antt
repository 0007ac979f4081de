-- ===== src/Leases.antt =====
-- Leases on account chains: the SQLite store of packages/storage/src/index.ts and the in-memory
-- store of packages/runtime/src/account-operation-executor.ts.
pub mod Lease
pub mod Sqlite
pub mod Memory
pub mod Agreement
pub mod Fencing
mod Tests
