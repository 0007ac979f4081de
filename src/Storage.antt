-- ===== src/Storage.antt =====
-- packages/storage/src/index.ts, the SQLite stores. A table is the list of its rows in the order of
-- insertion, a statement is a function on it, and a transaction that throws changes nothing.
pub mod Db
pub mod Ingest
pub mod Refunds
