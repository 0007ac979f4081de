-- ===== src/EventLog.antt =====
-- Reading stored events in pages: `list` of `createSqliteEventStore` (packages/storage/src/index.ts)
-- and `Runtime.listEvents` (packages/runtime/src/runtime.ts).
pub mod Pages
pub mod Complete
mod Tests
