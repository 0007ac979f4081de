-- ===== src/Storage/Refunds/Queue.antt =====
-- The transaction `queue` of `createSqliteRefundStore`.
use rai_flow.Prelude.{
  ℕ, ◌+◌, String, Bool, true, false, not, ◌&&◌, Option, none, some, List, [], ◌∷◌, ◌++◌, ◌==◌,
  string_eq, nat_eq, ltb, if◌then◌else◌, find, filter, any, sum_of, option_beq, is_some,
}
use rai_flow.Model.{
  Invoice, Deposit, Refund, Account, Send, SendSource, source_address, SendStatus, queued,
  send_status_eq,
}
use rai_flow.Model.Errors.{Result, ok, err, plain, ◌>>=◌}
use rai_flow.Storage.Db.{Db, RefundRow}

-- `RefundQueueResult`
pub record QueueResult : Type 0 where
  pub refund : Refund
  pub send : Send
  pub created : Bool

abbrev pub send_by_id : String → List Send → Option Send
send_by_id id = find (λ (s : Send). s.id == id)

abbrev pub deposit_by_id : String → List Deposit → Option Deposit
deposit_by_id id = find (λ (d : Deposit). d.id == id)

-- `rowToRefund`
abbrev pub row_to_refund : RefundRow → Send → Refund
row_to_refund row send = record {
  id = row.id;
  deposit_id = row.deposit_id;
  invoice_id = row.invoice_id;
  send_id = row.send_id;
  destination = row.destination;
  amount_raw = row.amount_raw;
  status = send.status;
  idempotency_key = row.idempotency_key;
  created_at = row.created_at;
  published_at = send.published_at;
  confirmed_at = send.confirmed_at;
}

unfoldable pub get_result : Db → RefundRow → Bool → Result QueueResult
get_result db row created = elim (send_by_id row.send_id db.sends) [
  | none ↦ err (plain "Refund has no durable send")
  | some send ↦ ok (record { refund = row_to_refund row send; send = send; created = created })
]

-- `invoiceSourceMatches`
abbrev pub source_matches : Option String → SendSource → Bool
source_matches (some id) (SendSource.invoice invoice_id address index) = invoice_id == id
source_matches none (SendSource.account account_id address index) = true
source_matches _ _ = false

-- The checks of a refund and its send against the deposit.
unfoldable pub well_matched : Deposit → Refund → Send → Bool
well_matched deposit refund send =
    refund.deposit_id == deposit.id
    && option_beq refund.invoice_id deposit.invoice_id
    && refund.send_id == send.id
    && refund.destination == send.destination
    && refund.amount_raw == send.amount_raw
    && not (refund.idempotency_key == "")
    && source_address send.source == deposit.recipient_account
    && source_matches deposit.invoice_id send.source
    && send.status == queued
    && not (is_some send.block_hash)

abbrev pub refund_by_key : String → String → List RefundRow → Option RefundRow
refund_by_key deposit_id key =
    find (λ (r : RefundRow). r.deposit_id == deposit_id && r.idempotency_key == key)

abbrev pub is_active : SendStatus → Bool
is_active SendStatus.failed = false
is_active _ = true

-- What a refund counts for: its amount, where the send that it is joined to is active.
abbrev pub counted : List Send → RefundRow → ℕ
counted sends r = elim (send_by_id r.send_id sends) [
  | none ↦ 0
  | some s ↦ if is_active s.status then r.amount_raw else 0
]

abbrev pub refunded_in : List Send → String → List RefundRow → ℕ
refunded_in sends deposit_id rows =
    sum_of (counted sends) (filter (λ (r : RefundRow). r.deposit_id == deposit_id) rows)

-- `refundedRaw`, of the deposit with an id.
unfoldable pub refunded : String → Db → ℕ
refunded deposit_id db = refunded_in db.sends deposit_id db.refunds

-- `REFERENCES accounts(id)`, `REFERENCES invoices(id)` of a send's source.
abbrev pub source_exists : SendSource → Db → Bool
source_exists (SendSource.account account_id address index) db =
    any (λ (a : Account). a.id == account_id) db.accounts
source_exists (SendSource.invoice invoice_id address index) db =
    any (λ (i : Invoice). i.id == invoice_id) db.invoices

-- INSERT INTO sends, with the constraints of the table.
unfoldable pub insert_send : Send → Db → Result Db
insert_send send db =
    if any (λ (s : Send). s.id == send.id) db.sends
    then err (plain "UNIQUE constraint failed: sends.id")
    else if any (λ (s : Send). s.idempotency_key == send.idempotency_key) db.sends
    then err (plain "UNIQUE constraint failed: sends.idempotency_key")
    else if source_exists send.source db
    then ok (record db { sends = db.sends ++ send ∷ [] })
    else err (plain "FOREIGN KEY constraint failed")

abbrev pub row_of_refund : Deposit → Refund → Send → RefundRow
row_of_refund deposit refund send = record {
  id = refund.id;
  deposit_id = deposit.id;
  invoice_id = deposit.invoice_id;
  send_id = send.id;
  destination = refund.destination;
  amount_raw = refund.amount_raw;
  idempotency_key = refund.idempotency_key;
  created_at = refund.created_at;
}

abbrev invoice_exists : Option String → Db → Bool
invoice_exists none db = true
invoice_exists (some id) db = any (λ (i : Invoice). i.id == id) db.invoices

-- INSERT INTO refunds. The deposit, the send and the key were looked at before.
unfoldable pub insert_refund : RefundRow → Db → Result Db
insert_refund row db =
    if any (λ (r : RefundRow). r.id == row.id) db.refunds
    then err (plain "UNIQUE constraint failed: refunds.id")
    else if any (λ (r : RefundRow). r.send_id == row.send_id) db.refunds
    then err (plain "UNIQUE constraint failed: refunds.send_id")
    else if invoice_exists row.invoice_id db
    then ok (record db { refunds = db.refunds ++ row ∷ [] })
    else err (plain "FOREIGN KEY constraint failed")

-- The answer to a key that the deposit has seen.
unfoldable pub replay : Db → Refund → Send → RefundRow → Result QueueResult
unfolding get_result
replay db refund send row =
    if not (row.destination == refund.destination && row.amount_raw == refund.amount_raw)
    then err (plain "Refund idempotency key was reused with different parameters")
    else (do
      existing ← get_result db row false
      if source_address existing.send.source == source_address send.source
          then ok existing
          else err (plain "Refund idempotency key was reused with a different source account"))

-- The part of `queue` for a new key.
unfoldable pub reserve : Db → Deposit → Refund → Send → Result (Db × QueueResult)
reserve db deposit refund send = elim (deposit_by_id deposit.id db.deposits) [
  | none ↦ err (plain "Deposit not found")
  | some stored ↦
      if ltb stored.amount_raw (refunded deposit.id db + refund.amount_raw)
      then err (plain "Refund amount exceeds the unrefunded deposit amount")
      else (do
        db1 ← insert_send send db
        db2 ← insert_refund (row_of_refund deposit refund send) db1
        r ← get_result db2 (row_of_refund deposit refund send) true
        ok (db2, r))
]

abbrev with_state : Db → Result QueueResult → Result (Db × QueueResult)
with_state db r = do q ← r; ok (db, q)

unfoldable pub queue : Db → Deposit → Refund → Send → Result (Db × QueueResult)
queue db deposit refund send =
    if well_matched deposit refund send
    then (elim (refund_by_key deposit.id refund.idempotency_key db.refunds) [
      | some row ↦ with_state db (replay db refund send row)
      | none ↦ reserve db deposit refund send
    ])
    else err (plain "Refund and durable send do not match the confirmed deposit")
