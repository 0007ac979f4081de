-- ===== src/Storage/Ingest/Settle.antt =====
-- The steps of the ingest transaction for a block that pays an invoice: the payment, the invoice
-- and the events, each written once for a block.
use rai_flow.Prelude.{
  ℕ, String, Bool, true, false, ◌&&◌, Option, none, some, List, [], ◌∷◌, ◌++◌, ◌==◌, string_eq,
  nat_eq, leb, if◌then◌else◌, any, or_else, holds,
}
use rai_flow.Model.{
  Invoice, open_, completed, Payment, PaymentStatus, Deposit, ConfirmedBlock, CompletionPolicy,
  at_least, exact, InvoiceStatus, invoice_status_eq, Event, EventData, deposit_data, payment_data,
  sent_payment_data, invoice_data,
}
use rai_flow.Model.Errors.{Result, ok, err, plain}
use rai_flow.Storage.Db.{Db, append_event}
use rai_flow.Storage.Ingest.Inputs.{
  Host, payment_site, observed_site, completed_site, updated_site, completion_site, non_empty,
}

abbrev pub new_payment : Host → ConfirmedBlock → String → Payment
new_payment host block invoice_id = record {
  id = host.uuid payment_site;
  invoice_id = invoice_id;
  status = PaymentStatus.confirmed;
  block_hash = block.block_hash;
  sender_address = non_empty block.sender_account;
  amount_raw = block.amount_raw;
  confirmed_at = some block.confirmed_at;
  detected_at = block.confirmed_at;
}

-- The payment of the block: the row that exists, or INSERT INTO payments, where `id` is the primary
-- key and `block_hash` is unique.
unfoldable pub store_payment :
    Host → ConfirmedBlock → String → Option Payment → Db → Result (Db × Payment)
store_payment host block invoice_id (some p) db = ok (db, p)
store_payment host block invoice_id none db =
    if any (λ (r : Payment). r.block_hash == block.block_hash) db.payments
    then err (plain "UNIQUE constraint failed: payments.block_hash")
    else if any (λ (r : Payment). r.id == host.uuid payment_site) db.payments
    then err (plain "UNIQUE constraint failed: payments.id")
    else ok (
      record db { payments = db.payments ++ new_payment host block invoice_id ∷ [] },
      new_payment host block invoice_id,
    )

-- `completionPolicy.type === 'exact' ? received === expected : received >= expected`
unfoldable pub is_complete : CompletionPolicy → ℕ → ℕ → Bool
is_complete exact received expected = received == expected
is_complete at_least received expected = leb expected received

abbrev pub next_status : Invoice → ℕ → InvoiceStatus
next_status i received =
    if i.status == open_ && is_complete i.completion_policy received i.expected_amount_raw
    then completed
    else i.status

-- The row that the transaction writes over an invoice.
unfoldable pub settled : Host → ℕ → Invoice → Invoice
unfolding is_complete
settled host received i = record i {
  received_amount_raw = received;
  status = next_status i received;
  completed_at =
      if next_status i received == completed
      then or_else i.completed_at (some (host.now completion_site))
      else i.completed_at;
  updated_at = host.now updated_site;
}

-- `UPDATE invoices SET … WHERE id = ?`
unfoldable pub update_invoice : String → Invoice → List Invoice → List Invoice
update_invoice id new [] = []
update_invoice id new (i ∷ is) =
    (if i.id == id
      then record i {
        received_amount_raw = new.received_amount_raw;
        status = new.status;
        completed_at = new.completed_at;
        updated_at = new.updated_at;
      }
      else i)
    ∷ update_invoice id new is

-- `json_extract(data, '$.deposit.blockHash')`
abbrev pub deposit_hash : EventData → Option String
deposit_hash (deposit_data d) = some d.block_hash
deposit_hash _ = none

-- `json_extract` of `$.payment.blockHash` or `$.payment.sendBlockHash`
abbrev pub payment_hash : EventData → Option String
payment_hash (payment_data p i) = some p.block_hash
payment_hash (sent_payment_data h) = some h
payment_hash _ = none

unfoldable pub has_deposit_event : String → List Event → Bool
has_deposit_event block_hash events =
    any (λ (e : Event). e.type == "deposit.observed" && holds (deposit_hash e.payload) block_hash)
      events

unfoldable pub has_payment_event : String → String → List Event → Bool
has_payment_event type block_hash events =
    any (λ (e : Event). e.type == type && holds (payment_hash e.payload) block_hash) events

unfoldable pub has_completion_event : String → List Event → Bool
has_completion_event invoice_id events =
    any (λ (e : Event). e.type == "invoice.completed" && e.resource_id == invoice_id) events

-- `if (!seen && appendEvent(event)) events.push(event)`
unfoldable pub announce : Host → Bool → Event → Db × List Event → Db × List Event
announce host true event (db, sent) = (db, sent)
announce host false event (db, sent) =
    let (db', inserted) = append_event (host.job_uuid event.id) event db in
    (db', if inserted then sent ++ event ∷ [] else sent)

abbrev pub observed_event : Host → ConfirmedBlock → Deposit → Event
observed_event host block d = record {
  sequence = none;
  id = host.uuid observed_site;
  type = "deposit.observed";
  timestamp = block.confirmed_at;
  payload = deposit_data d;
  resource_id = d.id;
  resource_type = "deposit";
}

abbrev pub payment_event : String → String → ConfirmedBlock → Payment → Invoice → Event
payment_event id type block p i = record {
  sequence = none;
  id = id;
  type = type;
  timestamp = block.confirmed_at;
  payload = payment_data p i;
  resource_id = i.id;
  resource_type = "invoice";
}

abbrev pub completed_event : Host → ConfirmedBlock → Invoice → Event
completed_event host block i = record {
  sequence = none;
  id = host.uuid completed_site;
  type = "invoice.completed";
  timestamp = block.confirmed_at;
  payload = invoice_data i;
  resource_id = i.id;
  resource_type = "invoice";
}
