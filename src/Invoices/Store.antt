-- ===== src/Invoices/Store.antt =====
-- `createSqliteInvoiceStore`: creation under an idempotency key, and guarded changes of status.
use rai_flow.Prelude.{
  ℕ, String, Bool, false, ◌&&◌, Option, none, some, List, [], ◌∷◌, ◌++◌, map, ◌==◌, string_eq,
  if◌then◌else◌, find, filter, any, leb, or_else, holds,
}
use rai_flow.Model.{Invoice, InvoiceStatus, invoice_status_eq}
use rai_flow.Model.Errors.{Result, ok, err, plain}
use rai_flow.Storage.Db.{Db, KeyRow}
use rai_flow.Idempotency.Store.{row_of, insert_key}

abbrev pub get : String → List Invoice → Option Invoice
get id = find (λ (i : Invoice). i.id == id)

-- The fields of `Partial<Invoice>` that a transition sets; `none` is an absent `canceledAt`.
pub record Patch : Type 0 where
  pub status : InvoiceStatus
  pub canceled_at : Option ℕ

-- `{ ...current, ...patch, updatedAt }`
abbrev pub patched : Patch → ℕ → Invoice → Invoice
patched patch now i = record i {
  status = patch.status;
  canceled_at = or_else patch.canceled_at i.canceled_at;
  updated_at = now;
}

-- UPDATE invoices SET … WHERE id = ? AND status = ?
abbrev pub replace : String → InvoiceStatus → Invoice → List Invoice → List Invoice
replace id expected new =
    map (λ (r : Invoice). if r.id == id && r.status == expected then new else r)

unfoldable pub transition :
    String → InvoiceStatus → Patch → ℕ → List Invoice → List Invoice × Option Invoice
transition id expected patch now rows = elim (get id rows) [
  | none ↦ (rows, none)
  | some current ↦
      if current.status == expected
      then (replace id expected (patched patch now current) rows, some (patched patch now current))
      else (rows, none)
]

-- `if (idempotencyKey)`: an empty key counts as none.
abbrev pub given : Option String → Option String
given none = none
given (some k) = if k == "" then none else some k

-- The invoice of an idempotency key: the row that the key names, where it is there.
abbrev pub seen : Option String → Db → Option Invoice
seen none db = none
seen (some key) db = elim (row_of key db.idempotency_keys) [
  | none ↦ none
  | some row ↦ get row.resource_id db.invoices
]

abbrev remember : Option String → Invoice → List KeyRow → List KeyRow
remember none i rows = rows
remember (some key) i rows =
    insert_key
      (record {
        key = key;
        resource_type = "invoice";
        resource_id = i.id;
        created_at = i.created_at;
      })
      rows

abbrev key_taken : Option String → List Invoice → Bool
key_taken none rows = false
key_taken (some key) rows = any (λ (r : Invoice). holds r.idempotency_key key) rows

unfoldable pub create : Invoice → Option String → Db → Result (Db × Invoice)
create invoice idempotency_key db = elim (seen (given idempotency_key) db) [
  | some existing ↦ ok (db, existing)
  | none ↦
      if any (λ (r : Invoice). r.id == invoice.id) db.invoices
      then err (plain "UNIQUE constraint failed: invoices.id")
      else if key_taken invoice.idempotency_key db.invoices
      then err (plain "UNIQUE constraint failed: invoices.idempotency_key")
      else ok (
        record db {
          invoices = db.invoices ++ invoice ∷ [];
          idempotency_keys = remember (given idempotency_key) invoice db.idempotency_keys;
        },
        invoice,
      )
]

unfoldable pub insert_newest : Invoice → List Invoice → List Invoice
insert_newest i [] = i ∷ []
insert_newest i (j ∷ js) =
    let rest = insert_newest i js in if leb j.created_at i.created_at then i ∷ j ∷ js else j ∷ rest

-- ORDER BY created_at DESC
unfoldable pub newest_first : List Invoice → List Invoice
unfolding insert_newest
newest_first [] = []
newest_first (i ∷ is) = insert_newest i (newest_first is)

-- `list({ status })`
unfoldable pub list_by_status : InvoiceStatus → List Invoice → List Invoice
unfolding newest_first
list_by_status status rows = newest_first (filter (λ (i : Invoice). i.status == status) rows)
