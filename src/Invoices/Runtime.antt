-- ===== src/Invoices/Runtime.antt =====
-- `Runtime.cancelInvoice` and `Runtime.runExpiryCheck`, over the SQLite stores. Listeners, and the
-- wake-up of the webhook worker, are not modelled.
use rai_flow.Prelude.{
  ℕ, String, Bool, true, false, Option, none, some, List, [], ◌∷◌, string_eq, if◌then◌else◌, leb,
}
use rai_flow.Model.{
  Invoice, InvoiceStatus, open_, completed, expired, canceled, invoice_status_eq, Event,
  invoice_data,
}
use rai_flow.Model.Errors.{Result, ok, err, Error, coded, not_found, conflict}
use rai_flow.Storage.Db.{Db, append_event}
use rai_flow.Idempotency.Store as Keys
use rai_flow.Invoices.Store.{get, Patch, transition, given, list_by_status}

-- What a call takes from outside: the time, one for all the places of a call that read the clock, the
-- ids of its events by invoice, and the ids of the webhook jobs.
pub record Host : Type 0 where
  pub now : ℕ
  pub uuid : String → String
  pub job_uuid : String → String → String

-- TERMINAL_STATES
abbrev pub is_terminal : InvoiceStatus → Bool
is_terminal open_ = false
is_terminal completed = true
is_terminal expired = true
is_terminal canceled = true

abbrev pub status_event : Host → String → Invoice → Event
status_event host type i = record {
  sequence = none;
  id = host.uuid i.id;
  type = type;
  timestamp = host.now;
  payload = invoice_data i;
  resource_id = i.id;
  resource_type = "invoice";
}

-- `emitV2Event`, as far as the store goes.
unfoldable pub emit : Host → Event → Db → Db
emit host event db = (append_event (host.job_uuid event.id) event db).0

-- The invoice that an earlier call with the key has canceled.
abbrev pub replayed : Option String → Db → Option Invoice
replayed none db = none
replayed (some key) db = elim (Keys.get "invoice.cancel" key db.idempotency_keys) [
  | none ↦ none
  | some r ↦ get r.resource_id db.invoices
]

abbrev pub remember : Host → Option String → Invoice → Db → Db
remember host none i db = db
remember host (some key) i db = record db {
  idempotency_keys = (Keys.put "invoice.cancel" key "invoice" i.id host.now db.idempotency_keys).0;
}

abbrev pub cancel_patch : ℕ → Patch
cancel_patch now = record { status = canceled; canceled_at = some now }

abbrev pub terminal_error : Error
terminal_error = coded conflict "Invoice is already in terminal state"

abbrev pub missing_error : Error
missing_error = coded not_found "Invoice"

-- The part of `cancelInvoice` after the replay.
unfoldable pub cancel_open : Host → String → Option String → Db → Result (Db × Invoice)
cancel_open host id key db = elim (get id db.invoices) [
  | none ↦ err missing_error
  | some invoice ↦
      if is_terminal invoice.status
      then err terminal_error
      else (let (rows, updated) =
            transition id open_ (cancel_patch host.now) host.now db.invoices in
          elim updated [
            | none ↦ elim (get id rows) [
              | none ↦ err missing_error
              | some current ↦ err terminal_error
            ]
            | some i ↦
                let db1 = remember host key i (record db { invoices = rows }) in
                ok (emit host (status_event host "invoice.canceled" i) db1, i)
          ])
]

unfoldable pub cancel_invoice : Host → String → Option String → Db → Result (Db × Invoice)
cancel_invoice host id key db = elim (replayed (given key) db) [
  | some existing ↦ ok (db, existing)
  | none ↦ cancel_open host id (given key) db
]

-- `invoice.expiresAt !== null && invoice.expiresAt <= now`
abbrev pub is_due : ℕ → Invoice → Bool
is_due now i = elim i.expires_at [ none ↦ false | some e ↦ leb e now ]

abbrev pub expire_patch : Patch
expire_patch = record { status = expired; canceled_at = none }

-- One round of the loop of `runExpiryCheck`.
unfoldable pub expire_one : Host → Invoice → Db → Db
expire_one host i db =
    if is_due host.now i
    then (let (rows, updated) = transition i.id open_ expire_patch host.now db.invoices in
        elim updated [
          | none ↦ record db { invoices = rows }
          | some u ↦
              emit host (status_event host "invoice.expired" u) (record db { invoices = rows })
        ])
    else db

unfoldable pub expire_all : Host → List Invoice → Db → Db
expire_all host [] db = db
expire_all host (i ∷ is) db = expire_all host is (expire_one host i db)

unfoldable pub run_expiry_check : Host → Db → Db
run_expiry_check host db = expire_all host (list_by_status open_ db.invoices) db
