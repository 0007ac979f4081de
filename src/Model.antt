-- ===== src/Model.antt =====
-- packages/model/src/index.ts: the resources, their statuses and the events about them.
-- Amounts are decimal strings of raw units in the source and are read by `BigInt`: here ℕ.
-- Times are ISO 8601 strings in UTC, which sort by time: here ℕ, milliseconds since 1970.
mod Status
mod Resources
mod Events
pub mod Errors
pub use Status.*
pub use Resources.*
pub use Events.*
