-- ===== src/Outbox.antt =====
-- The durable webhook outbox: its store in packages/storage/src/index.ts and the worker of
-- packages/runtime/src/webhook-outbox-worker.ts that drains it.
pub mod Store
pub mod Worker
pub mod Leased
pub mod Attempts
mod Tests
