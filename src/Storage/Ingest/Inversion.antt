-- ===== src/Storage/Ingest/Inversion.antt =====
-- What a transaction that succeeds has done, step by step.
use rai_flow.Prelude.{String, Bool, ◌≡◌, Option, List, [], arith}
use mathlib.Core.Option
use rai_flow.Model.{ConfirmedBlock, Deposit, Event, Invoice, Payment}
use rai_flow.Model.Errors.{ok, >>=-eq-ok}
use rai_flow.Storage.Db.{Db}
use rai_flow.Storage.Ingest.Inputs.{Host, Limits, paid}
use rai_flow.Storage.Ingest.Steps.{
  Located, locate, admit, disposition_of, store_deposit, ensure_receive_task,
}
use rai_flow.Storage.Ingest.Settle.{
  announce, store_payment, settled, update_invoice, has_deposit_event, observed_event,
}
use rai_flow.Storage.Ingest.Transaction.{IngestResult, pay, finish, ingest}
use rai_flow.Storage.Ingest.Frames.{announce_payment-SameMoney}

-- What a payment that succeeds has stored.
pub record Paid (host : Host) (block : ConfirmedBlock) (i : Invoice) (row : Option Payment)
    (db db' : Db) (p : Payment) : Type 0 where
  pub stored : Db
  pub from_store : store_payment host block i.id row db ≡ ok (stored, p)
  pub payments : db'.payments ≡ stored.payments
  pub invoices :
      db'.invoices
      ≡ update_invoice i.id (settled host (paid i.id stored.payments) i) stored.invoices
  pub deposits : db'.deposits ≡ stored.deposits
  pub tasks : db'.receive_tasks ≡ stored.receive_tasks

pub pay-Paid :
    (host : Host) (block : ConfirmedBlock) (i : Invoice) (row : Option Payment) (db db' : Db)
    (sent sent' : List Event) (p : Payment)
    → pay host block i row (db, sent) ≡ ok (db', sent', p)
    → Paid host block i row db db' p
unfolding pay
pay-Paid host block i row db db' sent sent' p e =
    let ((db1, p1), stored, rest) = >>=-eq-ok (store_payment host block i.id row db) _ e in
    let received = paid i.id db1.payments in
    let db2 : Db = record db1 {
      invoices = update_invoice i.id (settled host received i) db1.invoices;
    } in
    let same = announce_payment-SameMoney host block p1 i received db2 sent in
    record {
      stored = db1;
      from_store = ground arith;
      payments = ground (arith, same.payments);
      invoices = ground (arith, same.invoices);
      deposits = ground (arith, same.deposits);
      tasks = ground (arith, same.tasks);
    }

abbrev pub observed : Host → ConfirmedBlock → Deposit → Db → Db × List Event
observed host block d db =
    announce host (has_deposit_event block.block_hash db.events) (observed_event host block d)
      (db, [])

abbrev pub invoice_id_of : Located → Option String
invoice_id_of l = Option.map (λ (i : Invoice). i.id) l.invoice_row

pub record Ingested (limits : Limits) (host : Host) (db db' : Db) (block : ConfirmedBlock)
    (r : IngestResult) : Type 0 where
  pub located : Located
  pub from_locate : locate db block ≡ ok located
  pub admitted : admit limits host db block located.deposit_row ≡ ok tt
  pub deposited : Db
  pub deposit : Deposit
  pub created : Bool
  pub from_deposits :
      store_deposit host block
        (invoice_id_of located)
        (disposition_of db block located)
        located.deposit_row
        db
      ≡ ok (deposited, deposit, created)
  pub tasked : Db
  pub from_tasks : ensure_receive_task host block deposited ≡ ok tasked
  pub from_finish :
      finish host block located
        (disposition_of db block located)
        deposit
        created
        (observed host block deposit tasked)
      ≡ ok (db', r)

pub ingest-Ingested :
    (limits : Limits) (host : Host) (db db' : Db) (block : ConfirmedBlock) (r : IngestResult)
    → ingest limits host db block ≡ ok (db', r)
    → Ingested limits host db db' block r
unfolding ingest
ingest-Ingested limits host db db' block r e =
    let (l, e1, e2) = >>=-eq-ok (locate db block) _ e in
    let (u, e3, e4) = >>=-eq-ok (admit limits host db block l.deposit_row) _ e2 in
    let ((db1, d, created), e5, e6) =
      >>=-eq-ok
        (store_deposit host block (invoice_id_of l) (disposition_of db block l) l.deposit_row db) _
        e4 in
    let (db2, e7, e8) = >>=-eq-ok (ensure_receive_task host block db1) _ e6 in
    record {
      located = l;
      from_locate = e1;
      admitted = e3;
      deposited = db1;
      deposit = d;
      created = created;
      from_deposits = e5;
      tasked = db2;
      from_tasks = e7;
      from_finish = e8;
    }
