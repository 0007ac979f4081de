-- ===== src/Recovery.antt =====
-- `AccountHistoryRecovery` of packages/watcher/src/recovery.ts, that replays the history of an account
-- from a cursor.
pub mod Reconcile
pub mod Cursor
mod Tests
