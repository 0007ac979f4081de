-- ===== src/Allocation.antt =====
-- `createSqliteInvoiceAccountStore`: derivation indices for invoice accounts.
pub mod Store
pub mod Indices
mod Tests
