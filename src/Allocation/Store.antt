-- ===== src/Allocation/Store.antt =====
-- The transaction `allocate` of `createSqliteInvoiceAccountStore`, and the store's lookups.
use rai_flow.Prelude.{
  ℕ, ◌+◌, String, Bool, false, ◌&&◌, Option, none, some, List, [], ◌∷◌, ◌++◌, ◌==◌, string_eq,
  nat_eq, ltb, leb, max, if◌then◌else◌, find, any, holds,
}
use rai_flow.Model.{InvoiceAccount}
use rai_flow.Model.Errors.{Result, ok, err, plain}

-- WHERE account_key = ? AND invoice_key = ?
abbrev pub account_of : String → String → List InvoiceAccount → Option InvoiceAccount
account_of account_key invoice_key =
    find (λ (a : InvoiceAccount). a.account_key == account_key && holds a.invoice_key invoice_key)

abbrev pub existing : String → Option String → List InvoiceAccount → Option InvoiceAccount
existing account_key none rows = none
existing account_key (some invoice_key) rows = account_of account_key invoice_key rows

-- SELECT MAX(derivation_index) … WHERE derivation_index >= ? AND derivation_index < ?
unfoldable pub max_index : ℕ → ℕ → List InvoiceAccount → Option ℕ
max_index start end_ [] = none
max_index start end_ (a ∷ rows) =
    let rest = max_index start end_ rows in
    if leb start a.derivation_index && ltb a.derivation_index end_
    then (elim rest [ none ↦ some a.derivation_index | some m ↦ some (max a.derivation_index m) ])
    else rest

-- `Math.max(start, (max_index ?? start - 1) + 1)`, which is `start` where there is no index.
unfoldable pub next_index : ℕ → ℕ → List InvoiceAccount → ℕ
unfolding max_index
next_index start end_ rows = elim (max_index start end_ rows) [
  | none ↦ start
  | some m ↦ max start (m + 1)
]

abbrev pub key_taken : String → Option String → List InvoiceAccount → Bool
key_taken account_key none rows = false
key_taken account_key (some invoice_key) rows =
    any (λ (a : InvoiceAccount). a.account_key == account_key && holds a.invoice_key invoice_key)
      rows

-- INSERT INTO invoice_accounts: `derivation_index` is unique, and so is a pair with an invoice key.
unfoldable pub insert_account : InvoiceAccount → List InvoiceAccount → Result (List InvoiceAccount)
insert_account a rows =
    if any (λ (r : InvoiceAccount). r.derivation_index == a.derivation_index) rows
    then err (plain "UNIQUE constraint failed: invoice_accounts.derivation_index")
    else if key_taken a.account_key a.invoice_key rows
    then err (
        plain
          "UNIQUE constraint failed: invoice_accounts.account_key, invoice_accounts.invoice_key")
    else ok (rows ++ a ∷ [])

abbrev pub new_account : String → Option String → ℕ → (ℕ → String) → ℕ → InvoiceAccount
new_account account_key invoice_key index derive_address now = record {
  account_key = account_key;
  invoice_key = invoice_key;
  derivation_index = index;
  address = derive_address index;
  created_at = now;
}

abbrev pub by_index : ℕ → List InvoiceAccount → Option InvoiceAccount
by_index index = find (λ (a : InvoiceAccount). a.derivation_index == index)

abbrev pub selected :
    Option InvoiceAccount → List InvoiceAccount → Result (List InvoiceAccount × InvoiceAccount)
selected none rows = err (plain "no row")
selected (some a) rows = ok (rows, a)

-- `derive_address` is the callback to the custody engine.
unfoldable pub get_or_create :
    String
    → Option String
    → ℕ
    → ℕ
    → (ℕ → String)
    → ℕ
    → List InvoiceAccount
    → Result (List InvoiceAccount × InvoiceAccount)
unfolding next_index insert_account
get_or_create account_key invoice_key start end_ derive_address now rows =
    elim (existing account_key invoice_key rows) [
      | some a ↦ ok (rows, a)
      | none ↦
          let index = next_index start end_ rows in
          if leb end_ index
          then err (plain "Invoice derivation range exhausted")
          else (elim (insert_account (new_account account_key invoice_key index derive_address now)
              rows) [ err e ↦ err e | ok rows' ↦ selected (by_index index rows') rows' ])
    ]
