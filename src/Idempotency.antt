-- ===== src/Idempotency.antt =====
-- The idempotency replay stores: SQLite's in packages/storage/src/index.ts, and the one in memory
-- of packages/runtime/src/stores.ts.
pub mod Keys
pub mod Store
pub mod Agreement
mod Tests
