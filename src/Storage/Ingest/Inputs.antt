-- ===== src/Storage/Ingest/Inputs.antt =====
-- What `createSqliteConfirmedDepositIngestStore` is given, and the queries of its transaction.
use rai_flow.Prelude.{
  ℕ, ◌-◌, ◌/◌, String, Bool, true, false, ◌&&◌, Option, none, some, List, [], ◌∷◌, ◌==◌, string_eq,
  leb, min, if◌then◌else◌, filter, sum_of, nat_eq,
}
use rai_flow.Model.{Invoice, Payment, PaymentStatus, invoice_status_eq}

-- `ConfirmedDepositIngestOptions`, with `Number.MAX_SAFE_INTEGER` as the value of an absent field.
pub record Limits : Type 0 where
  pub max_database_bytes : ℕ
  pub max_deposits_per_account : ℕ

abbrev pub max_safe_integer : ℕ
max_safe_integer = 9007199254740991

-- STORAGE_INGEST_HEADROOM_BYTES
abbrev pub storage_ingest_headroom_bytes : ℕ
storage_ingest_headroom_bytes = 16777216

-- `Math.max(0, x - y)` is the subtraction of ℕ.
unfoldable pub pause_at_bytes : Limits → ℕ
pause_at_bytes l =
    l.max_database_bytes - min storage_ingest_headroom_bytes (l.max_database_bytes / 8)

-- The places of the transaction that draw an id, `randomUUID()`, or read the clock.
pub data Site : Type 0 where
  deposit_site task_site observed_site payment_site received_site confirmed_site : Site
  completed_site updated_site completion_site : Site

-- What one transaction takes from outside: the ids drawn, those of the webhook jobs by event and
-- endpoint, the times read, and the size of the database files.
pub record Host : Type 0 where
  pub uuid : Site → String
  pub job_uuid : String → String → String
  pub now : Site → ℕ
  pub database_bytes : ℕ

-- `senderAccount || null`
abbrev pub non_empty : String → Option String
non_empty s = if s == "" then none else some s

-- `SELECT … WHERE pay_address = ? ORDER BY created_at ASC LIMIT 1`
unfoldable pub oldest : List Invoice → Option Invoice
oldest [] = none
oldest (i ∷ is) = elim (oldest is) [
  | none ↦ some i
  | some j ↦ if leb i.created_at j.created_at then some i else some j
]

abbrev pub paid_confirmed : String → Payment → Bool
paid_confirmed invoice_id p = p.invoice_id == invoice_id && is_confirmed p.status
  where
    is_confirmed : PaymentStatus → Bool
    is_confirmed PaymentStatus.confirmed = true
    is_confirmed _ = false

-- The sum of the confirmed payments of an invoice.
abbrev pub paid : String → List Payment → ℕ
paid invoice_id payments =
    sum_of (λ (p : Payment). p.amount_raw) (filter (paid_confirmed invoice_id) payments)
