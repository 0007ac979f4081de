-- ===== src/Invoices/Terminal.antt =====
-- Terminal invoices under cancelling and expiry.
use rai_flow.Prelude.{
  ℕ, String, true, false, ◌&&◌, ◌≡◌, refl, ◌∙◌, Option, none, some, List, [], ◌∷◌, ◌==◌, string_eq,
  if◌then◌else◌, arith, eq_iff, inl, inr, ◌⊎◌, Bool-cases, Option-cases, find-map, ap,
}
use mathlib.Core.Option
use rai_flow.Model.{Invoice, InvoiceStatus, open_, invoice_status_eq, Event}
use rai_flow.Model.Errors.{Result, ok, err}
use rai_flow.Storage.Db.{Db, append_event}
use rai_flow.Invoices.Store.{get, Patch, patched, replace, transition, given}
use rai_flow.Invoices.Runtime.{
  Host, is_terminal, emit, replayed, cancel_open, cancel_invoice, is_due, expire_one, expire_all,
  run_expiry_check, expire_patch, cancel_patch, status_event, remember,
}

pub get-id : (id : String) (rows : List Invoice) (i : Invoice) → get id rows ≡ some i → i.id ≡ id
get-id id [] i e = cc
get-id id (j ∷ rows) i e = ground (arith, eq_iff j.id id, get-id id rows i)

replaced : String → InvoiceStatus → Invoice → Invoice → Invoice
replaced id expected new r = if r.id == id && r.status == expected then new else r

replaced-id :
    (id : String) (expected : InvoiceStatus) (new r : Invoice)
    → new.id ≡ id
    → (replaced id expected new r).id ≡ r.id
unfolding replaced
replaced-id id expected new r same = elim (Bool-cases (r.id == id)) [
  | inl here ↦ ground (arith, eq_iff r.id id)
  | inr other ↦ ground arith
]

-- The row of an id after a row was replaced.
get-replace :
    (j id : String) (expected : InvoiceStatus) (new : Invoice) (rows : List Invoice)
    → new.id ≡ id
    → get j (replace id expected new rows) ≡ Option.map (replaced id expected new) (get j rows)
unfolding replaced
get-replace j id expected new rows same =
    find-map (λ (r : Invoice). r.id == j) (replaced id expected new) rows
      (λ r. ap (λ (x : String). x == j) (replaced-id id expected new r same))

-- The row of an id after a transition: changed for the invoice itself, where it had the status.
pub get-transition :
    (j id : String) (expected : InvoiceStatus) (patch : Patch) (now : ℕ) (rows : List Invoice)
    → get j (transition id expected patch now rows).0 ≡ elim (get j rows) [
      | none ↦ none
      | some r ↦ some (if id == j && r.status == expected then patched patch now r else r)
    ]
unfolding transition replaced
get-transition j id expected patch now rows = elim (Option-cases (get id rows)) [
  | inl missing ↦ elim (Option-cases (get j rows)) [
    | inl a ↦ ground arith
    | inr (r, b) ↦ ground (arith, eq_iff id j)
  ]
  | inr (i, found) ↦
      let at = get-id id rows i found in
      let after = get-replace j id expected (patched patch now i) rows at in
      elim (Option-cases (get j rows)) [
        | inl none_there ↦ ground (arith, after)
        | inr (r, there) ↦
            let at_j = get-id j rows r there in ground (arith, after, eq_iff r.id id, eq_iff id j)
      ]
]

pub emit-invoices :
    (host : Host) (event : Event) (db : Db) → (emit host event db).invoices ≡ db.invoices
unfolding emit append_event
emit-invoices host event db = ground arith

pub get-expire_one :
    (host : Host) (x : Invoice) (j : String) (db : Db)
    → get j (expire_one host x db).invoices ≡ elim (get j db.invoices) [
      | none ↦ none
      | some r ↦ some (
          if is_due host.now x && x.id == j && r.status == open_
          then patched expire_patch host.now r
          else r)
    ]
unfolding expire_one
get-expire_one host x j db =
    grind (arith, emit-invoices, get-transition j x.id open_ expire_patch host.now db.invoices)

-- The calls of the runtime that change the status of an invoice outside the ingest transaction.
pub data Call : Type 0 where
  cancels : Host → (id : String) → (key : Option String) → Call
  expires : Host → Call

-- A call that throws leaves the stores as they were.
abbrev pub state_after : Db → Result (Db × Invoice) → Db
state_after db (ok (db', i)) = db'
state_after db (err e) = db

unfoldable pub step : Call → Db → Db
step (cancels host id key) db = state_after db (cancel_invoice host id key db)
step (expires host) db = run_expiry_check host db

unfoldable pub run : List Call → Db → Db
run [] db = db
run (c ∷ cs) db = run cs (step c db)

expire_all-keeps :
    (host : Host) (is : List Invoice) (db : Db) (j : String) (r : Invoice)
    → get j db.invoices ≡ some r
    → is_terminal r.status ≡ true
    → get j (expire_all host is db).invoices ≡ some r
unfolding expire_all
expire_all-keeps host [] db j r e t = e
expire_all-keeps host (i ∷ is) db j r e t =
    expire_all-keeps host is (expire_one host i db) j r (ground (arith, get-expire_one host i j db))
      t

-- A cancellation of an open invoice succeeds.
pub cancel_open-open :
    (host : Host) (id : String) (key : Option String) (db : Db) (i : Invoice)
    → get id db.invoices ≡ some i
    → is_terminal i.status ≡ false
    → cancel_open host id key db
      ≡ ok (
        emit host
            (status_event host "invoice.canceled" (patched (cancel_patch host.now) host.now i))
            (remember host key (patched (cancel_patch host.now) host.now i) (record db {
              invoices = (transition id open_ (cancel_patch host.now) host.now db.invoices).0;
            })),
        patched (cancel_patch host.now) host.now i,
      )
unfolding cancel_open transition
cancel_open-open host id key db i found going = ground arith

pub remember-invoices :
    (host : Host) (key : Option String) (i : Invoice) (db : Db)
    → (remember host key i db).invoices ≡ db.invoices
remember-invoices host none i db = refl
remember-invoices host (some k) i db = refl

-- What a cancellation leaves in the table: the rows as they were, or those after the transition.
cancel-invoices :
    (host : Host) (id : String) (key : Option String) (db : Db)
    → ((state_after db (cancel_invoice host id key db)).invoices ≡ db.invoices)
      ⊎ ((state_after db (cancel_invoice host id key db)).invoices
          ≡ (transition id open_ (cancel_patch host.now) host.now db.invoices).0)
unfolding cancel_invoice cancel_open
cancel-invoices host id key db = elim (Option-cases (replayed (given key) db)) [
  | inr (seen, again) ↦ inl (ground arith)
  | inl new_key ↦ elim (Option-cases (get id db.invoices)) [
    | inl missing ↦ inl (ground arith)
    | inr (i, found) ↦ elim (Bool-cases (is_terminal i.status)) [
      | inl ended ↦ inl (ground arith)
      | inr going ↦
          let rows = (transition id open_ (cancel_patch host.now) host.now db.invoices).0 in
          let new = patched (cancel_patch host.now) host.now i in
          inr (
            rw (cancel_invoice, new_key, cancel_open-open host id (given key) db i found going)
              (emit-invoices host (status_event host "invoice.canceled" new)
                  (remember host (given key) new (record db { invoices = rows }))
                ∙ remember-invoices host (given key) new (record db { invoices = rows })))
    ]
  ]
]

cancel-keeps :
    (host : Host) (id : String) (key : Option String) (db : Db) (j : String) (r : Invoice)
    → get j db.invoices ≡ some r
    → is_terminal r.status ≡ true
    → get j (state_after db (cancel_invoice host id key db)).invoices ≡ some r
cancel-keeps host id key db j r e t = elim (cancel-invoices host id key db) [
  | inl same ↦ rw same e
  | inr moved ↦
      rw moved
        (ground (arith, get-transition j id open_ (cancel_patch host.now) host.now db.invoices))
]

-- No sequence of cancellations and expiry checks changes an invoice that is completed, expired or
-- canceled.
pub terminal_stays :
    (cs : List Call) (db : Db) (id : String) (i : Invoice)
    → get id db.invoices ≡ some i
    → is_terminal i.status ≡ true
    → get id (run cs db).invoices ≡ some i
unfolding run step run_expiry_check
terminal_stays [] db id i e t = e
terminal_stays (cancels host j key ∷ cs) db id i e t =
    terminal_stays cs _ id i (cancel-keeps host j key db id i e t) t
terminal_stays (expires host ∷ cs) db id i e t =
    terminal_stays cs _ id i (expire_all-keeps host _ db id i e t) t
