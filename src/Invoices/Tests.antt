-- ===== src/Invoices/Tests.antt =====
-- An open invoice that is due, and one that is completed.
use rai_flow.Prelude.{
  String, true, false, ◌&&◌, ◌≡◌, ◌≢◌, refl, none, some, [], ◌∷◌, ◌⊎◌, if◌then◌else◌, ◌==◌, arith,
  eq_iff,
}
use rai_flow.Model.{Invoice, InvoiceStatus, open_, completed, at_least, invoice_status_eq}
use rai_flow.Model.Errors.{ok, err}
use rai_flow.Storage.Db.{Db, empty_db, append_event}
use rai_flow.Idempotency.Store as Keys
use rai_flow.Invoices.Store.{get, patched, transition}
use rai_flow.Invoices.Runtime.{
  Host, is_terminal, is_due, cancel_open, cancel_invoice, cancel_patch, expire_patch,
  run_expiry_check, missing_error, terminal_error, emit,
}
use rai_flow.Invoices.Terminal.{cancels, expires, run, terminal_stays, state_after}
use rai_flow.Invoices.Cancel.{cancel_invoice_lem, cancel-cancel}
use rai_flow.Invoices.Expiry.{get-run_expiry_check}

abbrev host : Host
host = record { now = 90; uuid = λ id. id; job_uuid = λ event webhook. event }

abbrev invoice : String → InvoiceStatus → Invoice
invoice id status = record {
  id = id;
  account_key = "shop";
  invoice_key = none;
  status = status;
  pay_address = "nano_1";
  expected_amount_raw = 7;
  received_amount_raw = 0;
  memo = none;
  metadata = none;
  idempotency_key = none;
  expires_at = some 80;
  completed_at = none;
  canceled_at = none;
  created_at = 10;
  updated_at = 10;
  completion_policy = at_least;
  derivation_index = some 3;
}

abbrev db : Db
db = record empty_db { invoices = invoice "i" open_ ∷ invoice "j" completed ∷ [] }

terminal_stays_example :
    get "j" (run (cancels host "j" none ∷ expires host ∷ []) db).invoices
    ≡ some (invoice "j" completed)
terminal_stays_example =
    terminal_stays (cancels host "j" none ∷ expires host ∷ []) db "j" (invoice "j" completed) refl
      refl

cancel_invoice_lem_example :
    ((get "i" db.invoices ≡ none) × (cancel_invoice host "i" none db ≡ err missing_error))
    ⊎ ((i : Invoice) × (get "i" db.invoices ≡ some i)
        × (((is_terminal i.status ≡ true) × (cancel_invoice host "i" none db ≡ err terminal_error))
            ⊎ ((is_terminal i.status ≡ false)
                × ((db' : Db) × (cancel_invoice host "i" none db
                      ≡ ok (db', patched (cancel_patch host.now) host.now i))
                    × (get "i" db'.invoices ≡ some (patched (cancel_patch host.now) host.now i))))))
cancel_invoice_lem_example = cancel_invoice_lem host "i" db

abbrev canceled_invoice : Invoice
canceled_invoice = patched (cancel_patch 90) 90 (invoice "i" open_)

abbrev after : Db
after = state_after db (cancel_invoice host "i" (some "k") db)

ran : cancel_invoice host "i" (some "k") db ≡ ok (after, canceled_invoice)
unfolding cancel_invoice cancel_open transition Keys.get emit append_event
ran = refl

new_key : Keys.get "invoice.cancel" "k" db.idempotency_keys ≡ none
unfolding Keys.get
new_key = refl

abbrev key : String
key = "k"

nonempty : key ≢ ""
nonempty e = ground (arith, (eq_iff key "").1 e)

cancel-cancel_example : cancel_invoice host "j" (some "k") after ≡ ok (after, canceled_invoice)
cancel-cancel_example =
    cancel-cancel host host "i" "j" "k" db after canceled_invoice nonempty new_key ran

get-run_expiry_check_example :
    get "i" (run_expiry_check host db).invoices
    ≡ some (
        if (invoice "i" open_).status == open_ && is_due host.now (invoice "i" open_)
        then patched expire_patch host.now (invoice "i" open_)
        else invoice "i" open_)
get-run_expiry_check_example =
    get-run_expiry_check host db "i" (invoice "i" open_) (refl, (refl, tt)) refl
