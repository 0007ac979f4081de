-- ===== src/Storage/Refunds.antt =====
-- `createSqliteRefundStore`, refunds of a confirmed deposit, and `createSqliteSendStore`, the durable
-- sends that carry them.
pub mod Queue
pub mod Reserve
pub mod Replay
pub mod Sends
mod Tests
