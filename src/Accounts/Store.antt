-- ===== src/Accounts/Store.antt =====
-- `createSqliteAccountStore` of packages/storage/src/index.ts.
use rai_flow.Prelude.{
  ℕ, String, Bool, true, false, not, Option, none, some, List, [], ◌∷◌, ◌++◌, map, ◌==◌, string_eq,
  if◌then◌else◌, find, filter, any, leb, or_else,
}
use rai_flow.Model.{Account, AccountType, account_type_eq, Send, SendSource}
use rai_flow.Model.Errors.{Result, ok, err, plain}
use rai_flow.Storage.Db.{Db}

abbrev pub get : String → List Account → Option Account
get id = find (λ (a : Account). a.id == id)

abbrev pub get_by_address : String → List Account → Option Account
get_by_address address = find (λ (a : Account). a.address == address)

abbrev shares_key : Option String → Option String → Bool
shares_key (some a) (some b) = a == b
shares_key _ _ = false

-- INSERT INTO accounts: the id, the address and the key, where there is one, are unique.
unfoldable pub create : Account → Db → Result (Db × Account)
create account db =
    if any (λ (a : Account). a.id == account.id) db.accounts
    then err (plain "UNIQUE constraint failed: accounts.id")
    else if any (λ (a : Account). shares_key a.account_key account.account_key) db.accounts
    then err (plain "UNIQUE constraint failed: accounts.account_key")
    else if any (λ (a : Account). a.address == account.address) db.accounts
    then err (plain "UNIQUE constraint failed: accounts.address")
    else ok (record db { accounts = db.accounts ++ account ∷ [] }, account)

insert_newest : Account → List Account → List Account
insert_newest a [] = a ∷ []
insert_newest a (b ∷ bs) =
    let rest = insert_newest a bs in if leb b.created_at a.created_at then a ∷ b ∷ bs else b ∷ rest

-- ORDER BY created_at DESC
newest_first : List Account → List Account
unfolding insert_newest
newest_first [] = []
newest_first (a ∷ rows) = insert_newest a (newest_first rows)

unfoldable pub list : Option AccountType → List Account → List Account
unfolding newest_first
list none rows = newest_first rows
list (some type) rows = newest_first (filter (λ (a : Account). a.type == type) rows)

-- The fields of `Partial<Account>` that the callers set; `none` is an absent field.
pub record Patch : Type 0 where
  pub label : Option String
  pub balance_raw : Option ℕ
  pub frontier : Option String
  pub representative : Option String

abbrev pub no_patch : Patch
no_patch = record { label = none; balance_raw = none; frontier = none; representative = none }

-- `{ ...existing, ...patch, updatedAt }`
abbrev pub patched : Patch → ℕ → Account → Account
patched patch now a = record a {
  label = or_else patch.label a.label;
  balance_raw = elim patch.balance_raw [ none ↦ a.balance_raw | some raw ↦ raw ];
  frontier = or_else patch.frontier a.frontier;
  representative = or_else patch.representative a.representative;
  updated_at = now;
}

-- UPDATE accounts SET … WHERE id = ?
abbrev pub replaced : String → Account → Account → Account
replaced id new a = if a.id == id then new else a

unfoldable pub update : String → Patch → ℕ → Db → Result (Db × Account)
update id patch now db = elim (get id db.accounts) [
  | none ↦ err (plain "Account not found")
  | some existing ↦ ok (
    record db { accounts = map (replaced id (patched patch now existing)) db.accounts },
    patched patch now existing,
  )
]

-- `REFERENCES accounts(id)` of the table of sends.
abbrev pub is_source : String → Send → Bool
is_source id s = elim s.source [
  | SendSource.account account_id address index ↦ account_id == id
  | SendSource.invoice invoice_id address index ↦ false
]

-- DELETE FROM accounts WHERE id = ?, which fails while a send refers to the row.
unfoldable pub delete : String → Db → Result (Db × Bool)
delete id db =
    if any (λ (a : Account). a.id == id) db.accounts
    then (if any (is_source id) db.sends
        then err (plain "FOREIGN KEY constraint failed")
        else ok
            (record db { accounts = filter (λ (a : Account). not (a.id == id)) db.accounts }, true))
    else ok (db, false)
