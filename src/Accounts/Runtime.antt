-- ===== src/Accounts/Runtime.antt =====
-- `createManagedAccount`, `createWatchedAccount`, `updateAccount` and `deleteAccount` of
-- packages/runtime/src/runtime.ts, over the SQLite stores. The watcher is not modelled.
use rai_flow.Prelude.{
  ℕ, String, Bool, true, false, not, ◌&&◌, Option, none, some, List, [], ◌∷◌, ◌==◌, string_eq,
  nat_eq, if◌then◌else◌, find, any, holds, option_beq,
}
use rai_flow.Model.{Account, managed, watched, account_type_eq, Event, Send, account_data}
use rai_flow.Model.Errors.{coded, plain, not_found, conflict, bad_request, Result, ok, err, ◌>>=◌}
use rai_flow.Storage.Db.{Db, append_event}
use rai_flow.Storage.Refunds.Sends.{list_by_account}
use rai_flow.Idempotency.Store as Keys
use rai_flow.Accounts.Store.{no_patch, get, get_by_address, create, update, delete}

-- What a call draws: the time, the ids, and the ids of the webhook jobs.
pub record Draws : Type 0 where
  pub now : ℕ
  pub account_id : String
  pub event_id : String
  pub job_uuid : String → String → String

-- `deriveManagedIndex`, a hash of the key, and `deriveManagedAccount` of the custody engine.
pub record Derivation : Type 0 where
  pub index_of : String → ℕ
  pub address_of : ℕ → String

abbrev pub account_event : Draws → String → Account → Event
account_event draws type account = record {
  sequence = none;
  id = draws.event_id;
  type = type;
  timestamp = draws.now;
  payload = account_data account;
  resource_id = account.id;
  resource_type = "account";
}

abbrev pub emit : Draws → Event → Db → Db
emit draws event db = (append_event (draws.job_uuid event.id) event db).0

unfoldable pub persist_account : Draws → Account → Db → Result (Db × Account)
persist_account draws account db = do
  (db', created) ← create account db
  ok (emit draws (account_event draws "account.created" account) db', account)

abbrev pub remember : Draws → String → String → String → Db → Db
remember draws scope key id db = record db {
  idempotency_keys = (Keys.put scope key "account" id draws.now db.idempotency_keys).0;
}

-- The account that an earlier call with the key has answered.
unfoldable pub replayed : String → String → Db → Option Account
replayed scope key db = elim (Keys.get scope key db.idempotency_keys) [
  | none ↦ none
  | some replay ↦ get replay.resource_id db.accounts
]

abbrev pub replayed_if : String → Option String → Db → Option Account
replayed_if scope none db = none
replayed_if scope (some key) db = if key == "" then none else replayed scope key db

abbrev pub remember_if : Draws → String → Option String → String → Db → Db
remember_if draws scope none id db = db
remember_if draws scope (some key) id db = if key == "" then db else remember draws scope key id db

abbrev pub is_managed : Account → Bool
is_managed a = a.type == managed

-- `list({ type: 'managed' })` and `find`: the key is unique, so that the order of the list is left out.
abbrev pub by_account_key : String → List Account → Option Account
by_account_key key = find (λ (a : Account). is_managed a && holds a.account_key key)

abbrev pub has_index : ℕ → List Account → Bool
has_index index = any (λ (a : Account). is_managed a && option_beq a.derivation_index (some index))

abbrev pub managed_account :
    Draws → Derivation → String → (label representative : Option String) → Account
managed_account draws derivation key label representative = record {
  id = draws.account_id;
  account_key = some key;
  type = managed;
  address = derivation.address_of (derivation.index_of key);
  label = label;
  balance_raw = 0;
  pending_raw = 0;
  frontier = none;
  representative = representative;
  derivation_index = some (derivation.index_of key);
  created_at = draws.now;
  updated_at = draws.now;
}

unfoldable pub derive_account :
    Draws
    → Derivation
    → String
    → (label representative idempotency_key : Option String) → Db
    → Result (Db × Account)
derive_account draws derivation key label representative idempotency_key db =
    if has_index (derivation.index_of key) db.accounts
    then err (coded conflict "Managed account derivation collision")
    else (do
      (db', created) ←
          persist_account draws (managed_account draws derivation key label representative) db
      ok (remember_if draws "account.create.managed" idempotency_key created.id db', created))

-- In custodial mode, with a custody engine.
unfoldable pub create_managed_account :
    Draws
    → Derivation
    → String
    → (label representative idempotency_key : Option String) → Db
    → Result (Db × Account)
unfolding derive_account
create_managed_account draws derivation key label representative idempotency_key db =
    if key == ""
    then err (coded bad_request "accountKey is required for managed accounts")
    else (elim (replayed_if "account.create.managed" idempotency_key db) [
      | some existing ↦ ok (db, existing)
      | none ↦ elim (by_account_key key db.accounts) [
        | some existing ↦ ok (db, existing)
        | none ↦ derive_account draws derivation key label representative idempotency_key db
      ]
    ])

abbrev pub watched_account : Draws → String → Option String → Account
watched_account draws address label = record {
  id = draws.account_id;
  account_key = none;
  type = watched;
  address = address;
  label = label;
  balance_raw = 0;
  pending_raw = 0;
  frontier = none;
  representative = none;
  derivation_index = none;
  created_at = draws.now;
  updated_at = draws.now;
}

unfoldable pub create_watched_account :
    (valid_address : String → Bool)
    → Draws
    → (address : String) → (label : Option String) → (key : String) → Db
    → Result (Db × Account)
create_watched_account valid_address draws address label key db =
    if not (valid_address address)
    then err (coded bad_request "Invalid Nano address")
    else (elim (replayed "account.create.watched" key db) [
      | some existing ↦ ok (db, existing)
      | none ↦ elim (get_by_address address db.accounts) [
        | some existing ↦ ok (db, existing)
        | none ↦ do
          (db', created) ← persist_account draws (watched_account draws address label) db
          ok (remember draws "account.create.watched" key created.id db', created)
      ]
    ])

-- How the lease of the account answers: it is granted and held, it is held by another, or it is lost
-- before the change. A lease that is lost after the change is not modelled.
pub data LeaseAnswer : Type 0 where
  granted busy lost : LeaseAnswer

-- A change of the representative runs under the lease of the account.
unfoldable pub update_account :
    Draws
    → (lease : LeaseAnswer) → (id : String) → (label representative : Option String)
    → (key : String) → Db
    → Result (Db × Account)
update_account draws lease id label representative key db =
    elim (Keys.get "account.update" key db.idempotency_keys) [
      | some replay ↦
          if not (replay.resource_id == id)
          then err (coded conflict "Idempotency key belongs to another account")
          else (elim (get id db.accounts) [
            | some existing ↦ ok (db, existing)
            | none ↦ err (coded not_found "Account")
          ])
      | none ↦ elim (get id db.accounts) [
        | none ↦ err (coded not_found "Account")
        | some existing ↦ if changes existing then under_lease lease else change
      ]
    ]
  where
    changes : Account → Bool
    changes existing = elim representative [
      | none ↦ false
      | some r ↦ not (holds existing.representative r)
    ]

    change : Result (Db × Account)
    change = do
      (db', updated) ←
          update id (record no_patch { label = label; representative = representative }) draws.now
            db
      ok (remember draws "account.update" key id db', updated)

    under_lease : LeaseAnswer → Result (Db × Account)
    under_lease granted = change
    under_lease busy = err (coded conflict "Account chain is busy with another operation")
    under_lease lost = err (plain "Account operation lease lost")

abbrev pub is_empty : Account → Bool
is_empty a = a.balance_raw == 0 && a.pending_raw == 0

abbrev pub has_none : List Send → Bool
has_none [] = true
has_none (s ∷ ss) = false

abbrev pub removed : Draws → Account → String → String → Db → Db
removed draws account id key db =
    remember draws "account.delete" key id
      (emit draws (account_event draws "account.removed" account) db)

unfoldable pub remove_row : Draws → Account → String → String → Db → Result (Db × Option Account)
remove_row draws account id key db = do
  (db', deleted) ← delete id db
  if deleted
      then ok (removed draws account id key db', some account)
      else err (coded not_found "Account")

-- The part of `deleteAccount` after the replay.
unfoldable pub remove_account : Draws → String → String → Db → Result (Db × Option Account)
unfolding remove_row
remove_account draws id key db = elim (get id db.accounts) [
  | none ↦ err (coded not_found "Account")
  | some account ↦
      if not (is_empty account)
      then err
          (coded conflict "Account must have zero balance and zero pending balance before removal")
      else if not (has_none (list_by_account id db.sends))
      then err (coded conflict "Account has send history and cannot be removed")
      else remove_row draws account id key db
]

unfoldable pub delete_account : Draws → String → String → Db → Result (Db × Option Account)
unfolding remove_account
delete_account draws id key db = elim (Keys.get "account.delete" key db.idempotency_keys) [
  | some replay ↦
      if replay.resource_id == id
      then ok (db, none)
      else err (coded conflict "Idempotency key belongs to another account")
  | none ↦ remove_account draws id key db
]
