-- ===== src/Accounts/Removal.antt =====
-- What the removal of an account leaves behind.
use rai_flow.Prelude.{
  String, true, false, not, ◌≡◌, refl, Option, none, some, List, [], ◌∷◌, ◌==◌, string_eq, nat_eq,
  if◌then◌else◌, filter, any, arith, inl, inr, Bool-cases, Option-cases, eq_iff, ap, ◌∙◌,
}
use rai_flow.Model.{Account, Event}
use rai_flow.Model.Errors.{Result, ok, >>=-eq-ok}
use rai_flow.Storage.Db.{Db, append_event}
use rai_flow.Storage.Refunds.Sends.{list_by_account}
use rai_flow.Idempotency.Store as Keys
use rai_flow.Accounts.Store.{get, delete, is_source}
use rai_flow.Accounts.Runtime.{
  Draws, account_event, emit, is_empty, has_none, removed, remove_row, remove_account,
  delete_account,
}

get-filter :
    (id j : String) (rows : List Account)
    → get j (filter (λ (a : Account). not (a.id == id)) rows)
      ≡ (if j == id then none else get j rows)
get-filter id j [] = ground arith
get-filter id j (a ∷ rows) =
    ground (arith, get-filter id j rows, eq_iff a.id id, eq_iff a.id j, eq_iff j id)

emit-accounts :
    (draws : Draws) (event : Event) (db : Db) → (emit draws event db).accounts ≡ db.accounts
unfolding append_event
emit-accounts draws event db = ground arith

emit-sends : (draws : Draws) (event : Event) (db : Db) → (emit draws event db).sends ≡ db.sends
unfolding append_event
emit-sends draws event db = ground arith

-- What a removal has found and left.
pub record Removed (id : String) (account : Account) (db db' : Db) : Type 0 where
  pub known : get id db.accounts ≡ some account
  pub empty : (account.balance_raw ≡ 0) × (account.pending_raw ≡ 0)
  pub unused : any (is_source id) db.sends ≡ false
  pub sends_kept : db'.sends ≡ db.sends
  pub accounts_left :
      (j : String) → get j db'.accounts ≡ (if j == id then none else get j db.accounts)

record Deleted (id : String) (db db1 : Db) : Type 0 where
  unused : any (is_source id) db.sends ≡ false
  sends_kept : db1.sends ≡ db.sends
  left : db1.accounts ≡ filter (λ (a : Account). not (a.id == id)) db.accounts

delete-Deleted : (id : String) (db db1 : Db) → delete id db ≡ ok (db1, true) → Deleted id db db1
unfolding delete
delete-Deleted id db db1 e = elim (Bool-cases (any (λ (a : Account). a.id == id) db.accounts)) [
  | inr missing ↦ absurd (ground (arith, e, missing))
  | inl there ↦ elim (Bool-cases (any (is_source id) db.sends)) [
    | inl used ↦ absurd (ground (arith, e, there, used))
    | inr unused ↦
        let made : record db { accounts = filter (λ (a : Account). not (a.id == id)) db.accounts }
            ≡ db1 =
          ground (arith, e, there, unused) in
        rw (← made) (record { unused = unused; sends_kept = refl; left = refl })
  ]
]

remove_row-Removed :
    (draws : Draws) (id key : String) (db db' : Db) (a account : Account)
    → remove_row draws a id key db ≡ ok (db', some account)
    → get id db.accounts ≡ some a
    → is_empty a ≡ true
    → Removed id account db db'
unfolding remove_row
remove_row-Removed draws id key db db' a account e found drained =
    let ((db1, b), at, rest) = >>=-eq-ok (delete id db) _ e in
    elim (Bool-cases b) [
      | inr missing ↦ absurd (ground (arith, rest, missing))
      | inl done ↦
          let gone : Deleted id db db1 =
            delete-Deleted id db db1 (at ∙ ap (λ x. ok (db1, x)) done) in
          let after = removed draws a id key db1 in
          let made : ◌≡◌ {A = Result (Db × Option Account)} (ok (after, some a))
              (ok (db', some account)) =
            ground (arith, rest, done) in
          let same_db : after ≡ db' = ground (arith, made) in
          let same : a ≡ account = ground (arith, made) in
          let event = account_event draws "account.removed" a in
          record {
            known = found ∙ ap some same;
            empty = rw (← same) (ground (arith, drained));
            unused = gone.unused;
            sends_kept = rw (← same_db) (emit-sends draws event db1 ∙ gone.sends_kept);
            accounts_left = λ j. rw (← same_db) (
                ap (get j) (emit-accounts draws event db1 ∙ gone.left)
                ∙ get-filter id j db.accounts);
          }
    ]

remove_account-Removed :
    (draws : Draws) (id key : String) (db db' : Db) (account : Account)
    → remove_account draws id key db ≡ ok (db', some account)
    → Removed id account db db'
unfolding remove_account
remove_account-Removed draws id key db db' account e = elim (Option-cases (get id db.accounts)) [
  | inl missing ↦ absurd (ground (arith, e, missing))
  | inr (a, found) ↦ elim (Bool-cases (is_empty a)) [
    | inr funded ↦ absurd (ground (arith, e, found, funded))
    | inl drained ↦ elim (Bool-cases (has_none (list_by_account id db.sends))) [
      | inr used ↦ absurd (ground (arith, e, found, drained, used))
      | inl fresh ↦
          let at : remove_row draws a id key db ≡ ok (db', some account) =
            ground (arith, e, found, drained, fresh) in
          remove_row-Removed draws id key db db' a account at found drained
    ]
  ]
]

-- A request that has removed an account found it with no balance and no pending amount, and with no
-- send that it is the source of; it has kept the sends, and left every other account as it was.
pub delete_account-Removed :
    (draws : Draws) (id key : String) (db db' : Db) (account : Account)
    → delete_account draws id key db ≡ ok (db', some account)
    → Removed id account db db'
unfolding delete_account
delete_account-Removed draws id key db db' account e =
    elim (Option-cases (Keys.get "account.delete" key db.idempotency_keys)) [
      | inl new_key ↦
          remove_account-Removed draws id key db db' account (ground (arith, e, new_key))
      | inr (replay, known) ↦ elim (Bool-cases (replay.resource_id == id)) [
        | inl same ↦ absurd (ground (arith, e, known, same))
        | inr other ↦ absurd (ground (arith, e, known, other))
      ]
    ]
