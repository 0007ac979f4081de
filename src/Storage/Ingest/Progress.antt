-- ===== src/Storage/Ingest/Progress.antt =====
-- How an invoice's row changes in the ingest transaction.
use rai_flow.Prelude.{
  ℕ, String, Bool, true, ◌≡◌, sym, ◌∙◌, Option, none, some, List, [], ◌∷◌, arith, ◌==◌, string_eq,
  if◌then◌else◌, eq_iff, inl, inr, Bool-cases, Option-cases, find, ◌⊎◌,
}
use mathlib.Core.Option
use mathlib.Core.Path.{subst}
use rai_flow.Model.{
  ConfirmedBlock, Deposit, DepositDisposition, Event, Invoice, open_, completed, invoice_status_eq,
}
use rai_flow.Model.Errors.{ok, >>=-eq-ok}
use rai_flow.Storage.Db.{Db}
use rai_flow.Storage.Ingest.Inputs.{Host, Limits, paid}
use rai_flow.Storage.Ingest.Steps.{Located, locate, disposition_of, invoice_with_id, wanted_id}
use rai_flow.Storage.Ingest.Settle.{
  has_deposit_event, observed_event, settled, update_invoice, is_complete,
}
use rai_flow.Storage.Ingest.Transaction.{IngestResult, finish, ingest, is_late, pay}
use rai_flow.Storage.Ingest.Frames.{
  announce-SameMoney, store_payment-SameOthers, store_deposit-SamePayments,
  ensure_receive_task-SamePayments,
}
use rai_flow.Storage.Ingest.Inversion.{pay-Paid, ingest-Ingested, observed}

-- The row of an invoice.
abbrev pub invoice_by_id : String → List Invoice → Option Invoice
invoice_by_id id = find (λ (i : Invoice). i.id == id)

abbrev overwrite : Invoice → Invoice → Invoice
overwrite new i = record i {
  received_amount_raw = new.received_amount_raw;
  status = new.status;
  completed_at = new.completed_at;
  updated_at = new.updated_at;
}

pub invoice_by_id-update_invoice :
    (j id : String) (new : Invoice) (is : List Invoice)
    → invoice_by_id j (update_invoice id new is)
      ≡ (if id == j then Option.map (overwrite new) (invoice_by_id j is) else invoice_by_id j is)
unfolding update_invoice
invoice_by_id-update_invoice j id new [] = ground arith
invoice_by_id-update_invoice j id new (i ∷ is) =
    ground
      (arith, invoice_by_id-update_invoice j id new is, eq_iff i.id j, eq_iff i.id id, eq_iff id j)

invoice_by_id-id :
    (id : String) (is : List Invoice) (i : Invoice) → invoice_by_id id is ≡ some i → i.id ≡ id
invoice_by_id-id id [] i e = cc
invoice_by_id-id id (j ∷ is) i e = ground (arith, eq_iff j.id id, invoice_by_id-id id is i)

invoice_with_id-by_id :
    (is : List Invoice) (id : Option String) (i : Invoice)
    → invoice_with_id is id ≡ ok (some i)
    → invoice_by_id i.id is ≡ some i
invoice_with_id-by_id is none i e = cc
invoice_with_id-by_id is (some id) i e = elim (Option-cases (invoice_by_id id is)) [
  | inl missing ↦ absurd (ground arith)
  | inr (j, found) ↦
      let same : j ≡ i = ground arith in
      let at_id : invoice_by_id id is ≡ some i = found ∙ ground arith in
      subst (λ (k : String). invoice_by_id k is ≡ some i) (sym (invoice_by_id-id id is i at_id))
        at_id
]

pub locate-by_id :
    (db : Db) (block : ConfirmedBlock) (l : Located) (i : Invoice)
    → locate db block ≡ ok l
    → l.invoice_row ≡ some i
    → invoice_by_id i.id db.invoices ≡ some i
unfolding locate
locate-by_id db block l i e f =
    let (row, found, rest) = >>=-eq-ok (invoice_with_id db.invoices (wanted_id db block)) _ e in
    let same : row ≡ some i = ground arith in
    invoice_with_id-by_id db.invoices (wanted_id db block) i (rw same at found)

-- A status stays, or goes from open to completed with the policy met.
abbrev pub Advances : Invoice → Invoice → Type 0
Advances old new =
    (new.status ≡ old.status)
    ⊎ ((old.status ≡ open_)
        × (new.status ≡ completed)
        × (is_complete old.completion_policy new.received_amount_raw old.expected_amount_raw
            ≡ true))

settled-Advances :
    (host : Host) (received : ℕ) (i : Invoice) → Advances i (overwrite (settled host received i) i)
unfolding settled
settled-Advances host received i = ground arith

-- The row of each invoice after the payment of one.
abbrev RowsAdvance : List Invoice → List Invoice → Type 0
RowsAdvance olds news =
    (id : String) (old new : Invoice)
    → invoice_by_id id olds ≡ some old
    → invoice_by_id id news ≡ some new
    → Advances old new

RowsAdvance-refl : (is : List Invoice) → RowsAdvance is is
RowsAdvance-refl is id old new p q = inl (ground arith)

update_invoice-RowsAdvance :
    (host : Host) (received : ℕ) (i : Invoice) (is : List Invoice)
    → invoice_by_id i.id is ≡ some i
    → RowsAdvance is (update_invoice i.id (settled host received i) is)
update_invoice-RowsAdvance host received i is found id old new p q =
    elim (Bool-cases (i.id == id)) [
      | inl here ↦
          let at_id : i.id ≡ id = (eq_iff i.id id).0 here in
          let is_old : i ≡ old = ground arith in
          let is_new : overwrite (settled host received i) i ≡ new =
            ground (arith, invoice_by_id-update_invoice id i.id (settled host received i) is) in
          subst (λ (o : Invoice). Advances o new) is_old
            (subst (λ (n : Invoice). Advances i n) is_new (settled-Advances host received i))
      | inr other ↦
          inl (ground (arith, invoice_by_id-update_invoice id i.id (settled host received i) is))
    ]

finish-RowsAdvance :
    (host : Host) (block : ConfirmedBlock) (l : Located) (disposition : DepositDisposition)
    (d : Deposit) (created : Bool) (db db' : Db) (sent : List Event) (r : IngestResult)
    → ((i : Invoice) → l.invoice_row ≡ some i → invoice_by_id i.id db.invoices ≡ some i)
    → finish host block l disposition d created (db, sent) ≡ ok (db', r)
    → RowsAdvance db.invoices db'.invoices
unfolding finish
finish-RowsAdvance host block l disposition d created db db' sent r at_id e =
    elim (Option-cases l.invoice_row) [
      | inl missing ↦
          let same : db ≡ db' = ground arith in rw (← same) (RowsAdvance-refl db.invoices)
      | inr (i, found) ↦ elim (Bool-cases (is_late disposition)) [
        | inl late ↦
            let same : db ≡ db' = ground arith in rw (← same) (RowsAdvance-refl db.invoices)
        | inr due ↦
            let e' = rw (found, finish, due) at e in
            let ((db1, sent1, p), made, rest) =
              >>=-eq-ok (pay host block i l.payment_row (db, sent)) _ e' in
            let paid_up = pay-Paid host block i l.payment_row db db1 sent sent1 p made in
            let others =
              store_payment-SameOthers host block i.id l.payment_row db paid_up.stored p
                paid_up.from_store in
            let same : db1 ≡ db' = ground arith in
            rw (← same, paid_up.invoices, others.invoices)
              (update_invoice-RowsAdvance host (paid i.id paid_up.stored.payments) i db.invoices
                (at_id i found))
      ]
    ]

-- Ingesting a block leaves the status of every invoice as it was, or completes an open invoice whose
-- received amount then meets its completion policy.
pub ingest-Advances :
    (limits : Limits) (host : Host) (db db' : Db) (block : ConfirmedBlock) (r : IngestResult)
    (id : String) (old new : Invoice)
    → ingest limits host db block ≡ ok (db', r)
    → invoice_by_id id db.invoices ≡ some old
    → invoice_by_id id db'.invoices ≡ some new
    → Advances old new
ingest-Advances limits host db db' block r id old new e p q =
    let g = ingest-Ingested limits host db db' block r e in
    let kept = ensure_receive_task-SamePayments host block g.deposited g.tasked g.from_tasks in
    let first =
      store_deposit-SamePayments host block _ _ g.located.deposit_row db g.deposited g.deposit
        g.created g.from_deposits in
    let seen =
      announce-SameMoney host (has_deposit_event block.block_hash g.tasked.events)
        (observed_event host block g.deposit) g.tasked [] in
    let (db3, sent) = observed host block g.deposit g.tasked in
    let same : db3.invoices ≡ db.invoices = seen.invoices ∙ kept.invoices ∙ first.invoices in
    finish-RowsAdvance host block g.located (disposition_of db block g.located) g.deposit g.created
      db3 db' sent r (λ i f. rw same (locate-by_id db block g.located i g.from_locate f))
      g.from_finish id old new (rw same p) q
