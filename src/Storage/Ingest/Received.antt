-- ===== src/Storage/Ingest/Received.antt =====
-- The received amounts of invoices beside their confirmed payments.
use rai_flow.Prelude.{
  ◌+◌, String, Bool, ◌≡◌, refl, ◌∙◌, ◌≢◌, Option, none, some, List, [], ◌∷◌, ◌++◌, arith, string_eq,
  if◌then◌else◌, eq_iff, inl, inr, Bool-cases, Option-cases, filter, sum_of-append, filter-append,
  All,
}
use rai_flow.Model.{ConfirmedBlock, Deposit, DepositDisposition, Event, Invoice, Payment}
use rai_flow.Model.Errors.{ok, >>=-eq-ok}
use rai_flow.Storage.Db.{Db}
use rai_flow.Storage.Ingest.Inputs.{Host, Limits, paid, paid_confirmed}
use rai_flow.Storage.Ingest.Steps.{Located, disposition_of}
use rai_flow.Storage.Ingest.Settle.{
  store_payment, new_payment, settled, update_invoice, has_deposit_event, observed_event,
}
use rai_flow.Storage.Ingest.Transaction.{IngestResult, pay, finish, ingest, is_late}
use rai_flow.Storage.Ingest.Inversion.{pay-Paid, ingest-Ingested, observed}
use rai_flow.Storage.Ingest.Frames.{
  announce-SameMoney, store_deposit-SamePayments, ensure_receive_task-SamePayments,
}

abbrev ReceivedMatches : List Payment → Invoice → Type 0
ReceivedMatches payments i = i.received_amount_raw ≡ paid i.id payments

-- What every invoice has received is the sum of its confirmed payments.
abbrev pub IsReconciled : Db → Type 0
IsReconciled db = All (ReceivedMatches db.payments) db.invoices

paid-append :
    (id : String) (ps : List Payment) (p : Payment)
    → paid id (ps ++ p ∷ []) ≡ paid id ps + (if paid_confirmed id p then p.amount_raw else 0)
paid-append id ps p =
    rw
      (
        filter-append (paid_confirmed id) ps (p ∷ []),
        sum_of-append (λ (q : Payment). q.amount_raw) (filter (paid_confirmed id) ps)
            (filter (paid_confirmed id) (p ∷ [])),
      )
      (ground arith)

-- A payment to one invoice leaves the sum of any other.
paid-append_ne :
    (id : String) (ps : List Payment) (p : Payment)
    → p.invoice_id ≢ id
    → paid id (ps ++ p ∷ []) ≡ paid id ps
paid-append_ne id ps p h = paid-append id ps p ∙ ground (arith, eq_iff p.invoice_id id)

-- Only the sum of the invoice that is paid may change.
abbrev OnlyPays : String → List Payment → List Payment → Type 0
OnlyPays id old new = (j : String) → id ≢ j → paid j new ≡ paid j old

store_payment-OnlyPays :
    (host : Host) (block : ConfirmedBlock) (id : String) (row : Option Payment) (db db' : Db)
    (p : Payment)
    → store_payment host block id row db ≡ ok (db', p)
    → (db'.invoices ≡ db.invoices) × OnlyPays id db.payments db'.payments
unfolding store_payment
store_payment-OnlyPays host block id (some q) db db' p e = (ground arith, λ j h. ground arith)
store_payment-OnlyPays host block id none db db' p e = (
  ground arith,
  λ j h. ground (arith, paid-append_ne j db.payments (new_payment host block id) h),
)

All-update_invoice :
    (id : String) (new : Invoice) (old_payments payments : List Payment) (is : List Invoice)
    → All (ReceivedMatches old_payments) is
    → new.received_amount_raw ≡ paid id payments
    → OnlyPays id old_payments payments
    → All (ReceivedMatches payments) (update_invoice id new is)
unfolding update_invoice
All-update_invoice id new old payments [] h r o = tt
All-update_invoice id new old payments (i ∷ is) (h, hs) r o = (
  ground (arith, eq_iff i.id id, λ (n : id ≢ i.id). o i.id n),
  All-update_invoice id new old payments is hs r o,
)

pay-IsReconciled :
    (host : Host) (block : ConfirmedBlock) (i : Invoice) (row : Option Payment) (db db' : Db)
    (sent sent' : List Event) (p : Payment)
    → IsReconciled db
    → pay host block i row (db, sent) ≡ ok (db', sent', p)
    → IsReconciled db'
unfolding settled
pay-IsReconciled host block i row db db' sent sent' p h e =
    let made = pay-Paid host block i row db db' sent sent' p e in
    let (same, only) =
      store_payment-OnlyPays host block i.id row db made.stored p made.from_store in
    rw (made.payments, made.invoices, same)
      (All-update_invoice i.id _ db.payments made.stored.payments db.invoices h refl only)

finish-IsReconciled :
    (host : Host) (block : ConfirmedBlock) (l : Located) (disposition : DepositDisposition)
    (d : Deposit) (created : Bool) (db db' : Db) (sent : List Event) (r : IngestResult)
    → IsReconciled db
    → finish host block l disposition d created (db, sent) ≡ ok (db', r)
    → IsReconciled db'
unfolding finish
finish-IsReconciled host block l disposition d created db db' sent r h e =
    elim (Option-cases l.invoice_row) [
      | inl missing ↦ let same : db ≡ db' = ground arith in rw (← same) h
      | inr (i, found) ↦ elim (Bool-cases (is_late disposition)) [
        | inl late ↦ let same : db ≡ db' = ground arith in rw (← same) h
        | inr due ↦
            let e' = rw (found, finish, due) at e in
            let ((db1, sent1, p), paid, rest) =
              >>=-eq-ok (pay host block i l.payment_row (db, sent)) _ e' in
            let same : db1 ≡ db' = ground arith in
            rw (← same) (pay-IsReconciled host block i l.payment_row db db1 sent sent1 p h paid)
      ]
    ]

-- Ingesting a block keeps every invoice's received amount equal to the sum of its confirmed payments.
pub ingest-IsReconciled :
    (limits : Limits) (host : Host) (db db' : Db) (block : ConfirmedBlock) (r : IngestResult)
    → IsReconciled db
    → ingest limits host db block ≡ ok (db', r)
    → IsReconciled db'
ingest-IsReconciled limits host db db' block r h e =
    let g = ingest-Ingested limits host db db' block r e in
    let kept = ensure_receive_task-SamePayments host block g.deposited g.tasked g.from_tasks in
    let first =
      store_deposit-SamePayments host block _ _ g.located.deposit_row db g.deposited g.deposit
        g.created g.from_deposits in
    let seen =
      announce-SameMoney host (has_deposit_event block.block_hash g.tasked.events)
        (observed_event host block g.deposit) g.tasked [] in
    let (db3, sent) = observed host block g.deposit g.tasked in
    finish-IsReconciled host block g.located (disposition_of db block g.located) g.deposit g.created
      db3 db' sent r
      (rw
        (seen.payments, seen.invoices, kept.payments, kept.invoices, first.payments, first.invoices)
        h)
      g.from_finish
