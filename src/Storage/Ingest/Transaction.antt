-- ===== src/Storage/Ingest/Transaction.antt =====
-- The ingest transaction, from its steps.
use rai_flow.Prelude.{
  ℕ, Bool, true, false, not, ◌||◌, Option, none, some, List, [], ◌==◌, if◌then◌else◌,
}
use mathlib.Core.Option
use rai_flow.Model.{
  Invoice, completed, Payment, Deposit, DepositDisposition, late, ConfirmedBlock, Event,
  invoice_status_eq,
}
use rai_flow.Model.Errors.{Result, ok, ◌>>=◌, ◌>>◌}
use rai_flow.Storage.Db.{Db}
use rai_flow.Storage.Ingest.Inputs.{Limits, Host, received_site, confirmed_site, updated_site, paid}
use rai_flow.Storage.Ingest.Steps.{
  Located, locate, admit, disposition_of, store_deposit, ensure_receive_task,
}
use rai_flow.Storage.Ingest.Settle.{
  store_payment, settled, update_invoice, has_deposit_event, has_payment_event,
  has_completion_event, announce, observed_event, payment_event, completed_event,
}

-- `ConfirmedDepositIngestResult`
pub record IngestResult : Type 0 where
  pub deposit : Deposit
  pub payment : Option Payment
  pub created : Bool
  pub events : List Event

abbrev pub is_late : DepositDisposition → Bool
is_late late = true
is_late _ = false

-- The row of the invoice in the events about the payment: its status is still the old one.
abbrev pub payment_invoice : Host → ℕ → Invoice → Invoice
payment_invoice host received i = record i {
  received_amount_raw = received;
  updated_at = host.now updated_site;
}

-- From `payment_received` to the end of the transaction.
unfoldable pub announce_payment :
    Host → ConfirmedBlock → Payment → Invoice → ℕ → Db × List Event → Db × List Event
announce_payment host block p i received (db, sent) =
    let shown = payment_invoice host received i in
    let new = settled host received i in
    let (db1, sent1) =
      announce host (has_payment_event "invoice.payment_received" block.block_hash db.events)
        (payment_event (host.uuid received_site) "invoice.payment_received" block p shown)
        (db, sent) in
    let (db2, sent2) =
      announce host (has_payment_event "invoice.payment_confirmed" block.block_hash db1.events)
        (payment_event (host.uuid confirmed_site) "invoice.payment_confirmed" block p shown)
        (db1, sent1) in
    announce host (not (new.status == completed) || has_completion_event i.id db2.events)
      (completed_event host block new) (db2, sent2)

-- The part of the transaction that an invoice's payment goes through.
unfoldable pub pay :
    Host
    → ConfirmedBlock
    → Invoice
    → Option Payment
    → Db × List Event
    → Result (Db × List Event × Payment)
pay host block i payment_row (db, sent) = do
  (db1, p) ← store_payment host block i.id payment_row db
  let received = paid i.id db1.payments
  let db2 = record db1 { invoices = update_invoice i.id (settled host received i) db1.invoices }
  let (db3, sent3) = announce_payment host block p i received (db2, sent)
  ok (db3, sent3, p)

-- What follows the `deposit.observed` event.
unfoldable pub finish :
    Host
    → ConfirmedBlock
    → Located
    → DepositDisposition
    → Deposit
    → Bool
    → Db × List Event
    → Result (Db × IngestResult)
finish host block l disposition d created (db, sent) = elim l.invoice_row [
  | none ↦ ok (db, record { deposit = d; payment = none; created = created; events = sent })
  | some i ↦
      if is_late disposition
      then ok (db, record { deposit = d; payment = none; created = created; events = sent })
      else (do
        (db', sent', p) ← pay host block i l.payment_row (db, sent)
        ok (db', record { deposit = d; payment = some p; created = created; events = sent' }))
]

unfoldable pub ingest : Limits → Host → Db → ConfirmedBlock → Result (Db × IngestResult)
ingest limits host db block = do
  l ← locate db block
  admit limits host db block l.deposit_row
  let disposition = disposition_of db block l
  let invoice_id = Option.map (λ (i : Invoice). i.id) l.invoice_row
  (db1, d, created) ← store_deposit host block invoice_id disposition l.deposit_row db
  db2 ← ensure_receive_task host block db1
  let observed =
      announce host (has_deposit_event block.block_hash db2.events) (observed_event host block d)
        (db2, [])
  finish host block l disposition d created observed
