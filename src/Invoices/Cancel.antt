-- ===== src/Invoices/Cancel.antt =====
-- `cancelInvoice` on every branch, and its replay.
use rai_flow.Prelude.{
  ℕ, String, true, false, ◌≡◌, ◌≢◌, refl, ◌∙◌, sym, ap, Option, none, some, List, string_eq, arith,
  eq_iff, inl, inr, ◌⊎◌, Bool-cases, Option-cases, ==-refl,
}
use mathlib.Core.Option
use rai_flow.Model.{Invoice, open_, invoice_status_eq, Event}
use rai_flow.Model.Errors.{Result, ok, err}
use rai_flow.Storage.Db.{Db, KeyRow, append_event}
use rai_flow.Idempotency.Keys.{scoped_idempotency_key}
use rai_flow.Idempotency.Store as Keys
use rai_flow.Idempotency.Agreement.{row_of-insert_key}
use rai_flow.Invoices.Store.{get, patched, transition, given}
use rai_flow.Invoices.Runtime.{
  Host, is_terminal, emit, cancel_open, cancel_invoice, cancel_patch, status_event, remember,
  missing_error, terminal_error,
}
use rai_flow.Invoices.Terminal.{
  cancel_open-open, emit-invoices, remember-invoices, get-transition, get-id, state_after,
}

-- The row of an invoice that a cancellation of it has changed.
get-canceled :
    (host : Host) (id : String) (key : Option String) (db : Db) (i : Invoice)
    → get id db.invoices ≡ some i
    → is_terminal i.status ≡ false
    → get id (state_after db (cancel_open host id key db)).invoices
      ≡ some (patched (cancel_patch host.now) host.now i)
get-canceled host id key db i found going =
    let rows = (transition id open_ (cancel_patch host.now) host.now db.invoices).0 in
    let new = patched (cancel_patch host.now) host.now i in
    let moved : get id rows ≡ some new = ground (
      arith,
      get-transition id id open_ (cancel_patch host.now) host.now db.invoices,
      ==-refl id,
    ) in
    rw
      (
        cancel_open-open host id key db i found going,
        emit-invoices host (status_event host "invoice.canceled" new)
            (remember host key new (record db { invoices = rows })),
        remember-invoices host key new (record db { invoices = rows }),
      )
      moved

-- Without a key, a cancellation fails for an id that no invoice has and for an invoice in a terminal
-- state, and otherwise it succeeds and leaves the invoice canceled.
pub cancel_invoice_lem :
    (host : Host) (id : String) (db : Db)
    → ((get id db.invoices ≡ none) × (cancel_invoice host id none db ≡ err missing_error))
      ⊎ ((i : Invoice) × (get id db.invoices ≡ some i)
          × (((is_terminal i.status ≡ true) × (cancel_invoice host id none db ≡ err terminal_error))
              ⊎ ((is_terminal i.status ≡ false)
                  × ((db' : Db) × (cancel_invoice host id none db
                        ≡ ok (db', patched (cancel_patch host.now) host.now i))
                      × (get id db'.invoices
                          ≡ some (patched (cancel_patch host.now) host.now i))))))
unfolding cancel_invoice
cancel_invoice_lem host id db = elim (Option-cases (get id db.invoices)) [
  | inl missing ↦ inl (missing, unfold cancel_open in ground arith)
  | inr (i, found) ↦ inr (
    i,
    found,
    elim (Bool-cases (is_terminal i.status)) [
      | inl ended ↦ inl (ended, unfold cancel_open in ground arith)
      | inr going ↦ inr (
        going,
        (
          state_after db (cancel_open host id none db),
          ground (arith, cancel_open-open host id none db i found going),
          get-canceled host id none db i found going,
        ),
      )
    ],
  )
]

emit-keys :
    (host : Host) (event : Event) (db : Db)
    → (emit host event db).idempotency_keys ≡ db.idempotency_keys
unfolding emit append_event
emit-keys host event db = ground arith

-- A new key answers with its resource.
pub get-put_new :
    (scope key type id : String) (now : ℕ) (rows : List KeyRow)
    → Keys.get scope key rows ≡ none
    → Option.map
        (λ (r : Keys.IdempotencyRecord). r.resource_id)
        (Keys.get scope key (Keys.put scope key type id now rows).0)
      ≡ some id
unfolding Keys.get Keys.put Keys.row_to_record
get-put_new scope key type id now rows e =
    let scoped = scoped_idempotency_key scope key in
    let row : KeyRow = record {
      key = scoped;
      resource_type = type;
      resource_id = id;
      created_at = now;
    } in
    ground (arith, row_of-insert_key scoped row rows, ==-refl scoped)

given-some : (key : String) → key ≢ "" → given (some key) ≡ some key
given-some key h = ground (arith, eq_iff key "")

cancel_invoice-replayed :
    (host : Host) (id key : String) (db : Db) (r : Keys.IdempotencyRecord) (i : Invoice)
    → key ≢ ""
    → Keys.get "invoice.cancel" key db.idempotency_keys ≡ some r
    → get r.resource_id db.invoices ≡ some i
    → cancel_invoice host id (some key) db ≡ ok (db, i)
unfolding cancel_invoice
cancel_invoice-replayed host id key db r i h known found =
    rw (cancel_invoice, given-some key h, known, found) refl

cancel_invoice-new :
    (host : Host) (id key : String) (db : Db)
    → key ≢ ""
    → Keys.get "invoice.cancel" key db.idempotency_keys ≡ none
    → cancel_invoice host id (some key) db ≡ cancel_open host id (some key) db
unfolding cancel_invoice
cancel_invoice-new host id key db h new_key =
    rw (cancel_invoice, given-some key h, new_key)
      (ap (λ (k : Option String). cancel_open host id k db) (given-some key h))

-- What a cancellation under a new key has done.
record Canceled (host : Host) (id key : String) (db db' : Db) (i : Invoice) : Type 0 where
  known : get id db'.invoices ≡ some i
  at_id : i.id ≡ id
  keys :
      db'.idempotency_keys
      ≡ (Keys.put "invoice.cancel" key "invoice" i.id host.now db.idempotency_keys).0

cancel_open-Canceled :
    (host : Host) (id key : String) (db db' : Db) (i : Invoice)
    → cancel_open host id (some key) db ≡ ok (db', i)
    → Canceled host id key db db' i
cancel_open-Canceled host id key db db' i e = elim (Option-cases (get id db.invoices)) [
  | inl missing ↦ absurd (unfold cancel_open in ground arith)
  | inr (j, found) ↦ elim (Bool-cases (is_terminal j.status)) [
    | inl ended ↦ absurd (unfold cancel_open in ground arith)
    | inr going ↦
        let made = cancel_open-open host id (some key) db j found going in
        let moved = get-canceled host id (some key) db j found going in
        let rows = (transition id open_ (cancel_patch host.now) host.now db.invoices).0 in
        let new = patched (cancel_patch host.now) host.now j in
        let kept =
          emit-keys host (status_event host "invoice.canceled" new)
            (remember host (some key) new (record db { invoices = rows })) in
        let is_new : new ≡ i = ground arith in
        record {
          known =
              (ap (λ (x : Result (Db × Invoice)). get id (state_after db x).invoices) (sym e)
                ∙ moved)
              ∙ ap some is_new;
          at_id = ap (λ (x : Invoice). x.id) (sym is_new) ∙ get-id id db.invoices j found;
          keys =
              ap (λ (x : Result (Db × Invoice)). (state_after db x).idempotency_keys) (sym e ∙ made)
              ∙ kept
              ∙ ap
                  (λ (x : Invoice).
                    (Keys.put "invoice.cancel" key "invoice" x.id host.now db.idempotency_keys).0)
                  is_new;
        }
  ]
]

-- A cancellation under a new key, not empty, that succeeds is replayed: a second one under the key, on
-- the state that the first has left and whatever invoice it names, changes nothing and returns the
-- invoice that was canceled.
pub cancel-cancel :
    (host host' : Host) (id id' key : String) (db db' : Db) (i : Invoice)
    → key ≢ ""
    → Keys.get "invoice.cancel" key db.idempotency_keys ≡ none
    → cancel_invoice host id (some key) db ≡ ok (db', i)
    → cancel_invoice host' id' (some key) db' ≡ ok (db', i)
cancel-cancel host host' id id' key db db' i nonempty new_key e =
    let done =
      cancel_open-Canceled host id key db db' i
        (sym (cancel_invoice-new host id key db nonempty new_key) ∙ e) in
    let names =
      get-put_new "invoice.cancel" key "invoice" i.id host.now db.idempotency_keys new_key in
    let names' = rw (← done.keys) at names in
    elim (Option-cases (Keys.get "invoice.cancel" key db'.idempotency_keys)) [
      | inl missing ↦ absurd (ground (arith, names'))
      | inr (r, known) ↦
          let points : r.resource_id ≡ id = ground (arith, names', done.at_id) in
          cancel_invoice-replayed host' id' key db' r i nonempty known (rw points done.known)
    ]
