-- ===== src/Transfers.antt =====
-- The requests that queue sends and refunds.
pub mod Runtime
pub mod Replays
pub mod Refunds
mod Tests
