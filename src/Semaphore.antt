-- ===== src/Semaphore.antt =====
-- The `Semaphore` of packages/rpc/src/index.ts, that limits how many calls run at a time.
pub mod Slots
pub mod Fair
mod Tests
