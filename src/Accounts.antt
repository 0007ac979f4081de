-- ===== src/Accounts.antt =====
-- The accounts: their store, and the requests that change them.
pub mod Store
pub mod Runtime
pub mod Removal
pub mod Derived
mod Tests
