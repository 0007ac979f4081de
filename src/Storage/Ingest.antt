-- ===== src/Storage/Ingest.antt =====
-- `createSqliteConfirmedDepositIngestStore`: the transaction that turns a confirmed block into a
-- deposit, a receive task, a payment, an invoice update and the events about them.
pub mod Inputs
pub mod Steps
pub mod Settle
pub mod Transaction
mod Frames
mod Inversion
pub mod Received
pub mod Progress
mod Tests
