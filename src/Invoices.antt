-- ===== src/Invoices.antt =====
-- The life of an invoice outside the ingest transaction: `transition` of the SQLite invoice store
-- (packages/storage/src/index.ts), `cancelInvoice` and `runExpiryCheck` (packages/runtime/src/runtime.ts).
pub mod Store
pub mod Runtime
pub mod Terminal
pub mod Cancel
pub mod Expiry
mod Tests
