-- ===== src/Storage/Ingest/Tests.antt =====
-- One invoice, one block that pays it in full: the transaction at a concrete state.
use rai_flow.Prelude.{String, ◌≡◌, refl, none, some, [], ◌∷◌, false}
use rai_flow.Model.{Invoice, open_, completed, at_least, matched, ConfirmedBlock}
use rai_flow.Model.Errors.{Result, ok, err}
use rai_flow.Storage.Db.{Db, empty_db, enqueue_webhook_outbox, append_event}
use rai_flow.Storage.Ingest.Inputs.{
  Limits, Host, Site, pause_at_bytes, oldest, deposit_site, task_site, observed_site, payment_site,
  received_site, confirmed_site, completed_site, updated_site, completion_site,
}
use rai_flow.Storage.Ingest.Steps.{
  invoice_id_for, wanted_id, locate, admit, disposition_of, link_deposit, insert_deposit,
  store_deposit, insert_task, ensure_receive_task,
}
use rai_flow.Storage.Ingest.Settle.{
  store_payment, is_complete, settled, update_invoice, has_deposit_event, has_payment_event,
  has_completion_event, announce,
}
use rai_flow.Storage.Ingest.Transaction.{IngestResult, announce_payment, pay, finish, ingest}
use rai_flow.Storage.Ingest.Received.{IsReconciled, ingest-IsReconciled}
use rai_flow.Storage.Ingest.Progress.{invoice_by_id, Advances, ingest-Advances}

abbrev name_of : Site → String
name_of deposit_site = "d"
name_of task_site = "t"
name_of observed_site = "e1"
name_of payment_site = "p"
name_of received_site = "e2"
name_of confirmed_site = "e3"
name_of completed_site = "e4"
name_of updated_site = "u"
name_of completion_site = "c"

abbrev host : Host
host = record {
  uuid = name_of;
  job_uuid = λ event webhook. event;
  now = λ site. 50;
  database_bytes = 4096;
}

abbrev limits : Limits
limits = record { max_database_bytes = 1000000; max_deposits_per_account = 10 }

abbrev order : Invoice
order = record {
  id = "i";
  account_key = "shop";
  invoice_key = some "order";
  status = open_;
  pay_address = "nano_1";
  expected_amount_raw = 7;
  received_amount_raw = 0;
  memo = none;
  metadata = none;
  idempotency_key = none;
  expires_at = none;
  completed_at = none;
  canceled_at = none;
  created_at = 10;
  updated_at = 10;
  completion_policy = at_least;
  derivation_index = some 3;
}

abbrev before : Db
before = record empty_db {
  invoices = order ∷ [];
  invoice_accounts =
      record {
        account_key = "shop";
        invoice_key = some "order";
        derivation_index = 3;
        address = "nano_1";
        created_at = 10;
      }
      ∷ [];
}

abbrev block : ConfirmedBlock
block = record {
  block_hash = "AB";
  sender_account = "nano_2";
  recipient_account = "nano_1";
  amount_raw = 8;
  confirmed_at = 40;
  already_received = false;
}

abbrev or_start : Result (Db × IngestResult) → Db × IngestResult
or_start (ok r) = r
or_start (err e) = (
  before,
  record {
    deposit = record {
      id = "";
      block_hash = "";
      recipient_account = "";
      sender_account = none;
      amount_raw = 0;
      invoice_id = none;
      disposition = matched;
      confirmed_at = 0;
    };
    payment = none;
    created = false;
    events = [];
  },
)

abbrev outcome : Db × IngestResult
outcome = or_start (ingest limits host before block)

abbrev settled_order : Invoice
settled_order = record order {
  received_amount_raw = 8;
  status = completed;
  completed_at = some 50;
  updated_at = 50;
}

ran : ingest limits host before block ≡ ok outcome
unfolding ingest invoice_id_for wanted_id locate admit disposition_of link_deposit insert_deposit
    store_deposit insert_task ensure_receive_task store_payment is_complete settled update_invoice
    has_deposit_event has_payment_event has_completion_event announce announce_payment pay finish
    pause_at_bytes oldest append_event enqueue_webhook_outbox
ran = refl

paid_in_full : invoice_by_id "i" outcome.0.invoices ≡ some settled_order
unfolding ingest invoice_id_for wanted_id locate admit disposition_of link_deposit insert_deposit
    store_deposit insert_task ensure_receive_task store_payment is_complete settled update_invoice
    has_deposit_event has_payment_event has_completion_event announce announce_payment pay finish
    pause_at_bytes oldest append_event enqueue_webhook_outbox
paid_in_full = refl

ingest-IsReconciled_example : IsReconciled outcome.0
ingest-IsReconciled_example =
    ingest-IsReconciled limits host before outcome.0 block outcome.1 (refl, tt) ran

ingest-Advances_example : Advances order settled_order
ingest-Advances_example =
    ingest-Advances limits host before outcome.0 block outcome.1 "i" order settled_order ran refl
      paid_in_full
