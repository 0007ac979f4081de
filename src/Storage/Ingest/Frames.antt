-- ===== src/Storage/Ingest/Frames.antt =====
-- What the steps of the ingest transaction leave alone.
use rai_flow.Prelude.{
  ℕ, String, Bool, true, false, ◌≡◌, refl, Option, none, some, List, arith, string_eq,
}
use rai_flow.Model.{ConfirmedBlock, Deposit, DepositDisposition, Event, Invoice, Payment}
use rai_flow.Model.Errors.{ok}
use rai_flow.Storage.Db.{Db, append_event}
use rai_flow.Storage.Ingest.Inputs.{Host}
use rai_flow.Storage.Ingest.Steps.{store_deposit, ensure_receive_task}
use rai_flow.Storage.Ingest.Settle.{announce, store_payment}
use rai_flow.Storage.Ingest.Transaction.{announce_payment}

-- Two states with the same rows in the tables about money.
pub record SameMoney (a b : Db) : Type 0 where
  pub invoices : a.invoices ≡ b.invoices
  pub payments : a.payments ≡ b.payments
  pub deposits : a.deposits ≡ b.deposits
  pub tasks : a.receive_tasks ≡ b.receive_tasks

pub announce-SameMoney :
    (host : Host) (seen : Bool) (event : Event) (db : Db) (sent : List Event)
    → SameMoney (announce host seen event (db, sent)).0 db
unfolding announce append_event
announce-SameMoney host true event db sent = record {
  invoices = refl;
  payments = refl;
  deposits = refl;
  tasks = refl;
}
announce-SameMoney host false event db sent = ground arith

pub announce_payment-SameMoney :
    (host : Host) (block : ConfirmedBlock) (p : Payment) (i : Invoice) (received : ℕ) (db : Db)
    (sent : List Event)
    → SameMoney (announce_payment host block p i received (db, sent)).0 db
unfolding announce_payment
announce_payment-SameMoney host block p i received db sent = grind (arith, announce-SameMoney)

-- A deposit or a task that is stored leaves invoices and payments alone.
pub record SamePayments (a b : Db) : Type 0 where
  pub invoices : a.invoices ≡ b.invoices
  pub payments : a.payments ≡ b.payments

pub store_deposit-SamePayments :
    (host : Host) (block : ConfirmedBlock) (invoice_id : Option String)
    (disposition : DepositDisposition) (row : Option Deposit) (db db' : Db) (d : Deposit)
    (created : Bool)
    → store_deposit host block invoice_id disposition row db ≡ ok (db', d, created)
    → SamePayments db' db
unfolding store_deposit
store_deposit-SamePayments host block invoice_id disposition none db db' d created e = ground arith
store_deposit-SamePayments host block invoice_id disposition (some r) db db' d created e =
    ground arith

pub ensure_receive_task-SamePayments :
    (host : Host) (block : ConfirmedBlock) (db db' : Db)
    → ensure_receive_task host block db ≡ ok db'
    → SamePayments db' db
unfolding ensure_receive_task
ensure_receive_task-SamePayments host block db db' e = ground arith

-- A payment that is stored leaves the other tables alone.
pub record SameOthers (a b : Db) : Type 0 where
  pub invoices : a.invoices ≡ b.invoices
  pub deposits : a.deposits ≡ b.deposits
  pub tasks : a.receive_tasks ≡ b.receive_tasks

pub store_payment-SameOthers :
    (host : Host) (block : ConfirmedBlock) (id : String) (row : Option Payment) (db db' : Db)
    (p : Payment)
    → store_payment host block id row db ≡ ok (db', p)
    → SameOthers db' db
unfolding store_payment
store_payment-SameOthers host block id none db db' p e = ground arith
store_payment-SameOthers host block id (some q) db db' p e = ground arith
