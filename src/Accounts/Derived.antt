-- ===== src/Accounts/Derived.antt =====
-- The accounts that `createManagedAccount` answers with, and the order of the wallet.
use rai_flow.Prelude.{
  ℕ, ◌+◌, ◌≤◌, String, Bool, true, false, not, ◌&&◌, ◌||◌, ◌≡◌, refl, Option, none, some, List, [],
  ◌∷◌, ◌++◌, ◌==◌, string_eq, nat_eq, if◌then◌else◌, filter, all, length, holds, option_beq, arith,
  ◌⊎◌, inl, inr, Bool-cases, Option-cases, ==-refl, ap, ◌∙◌, sym,
}
use rai_flow.Model.{Account, Event}
use rai_flow.Model.Errors.{Result, ok, >>=-eq-ok}
use rai_flow.Storage.Db.{Db, append_event}
use rai_flow.Accounts.Store.{create}
use rai_flow.Accounts.Runtime.{
  Draws, Derivation, account_event, emit, persist_account, is_managed, by_account_key, has_index,
  managed_account, derive_account, create_managed_account, remember_if, replayed_if,
}

emit-accounts :
    (draws : Draws) (event : Event) (db : Db) → (emit draws event db).accounts ≡ db.accounts
unfolding append_event
emit-accounts draws event db = ground arith

create-accounts :
    (a : Account) (db db1 : Db) (x : Account)
    → create a db ≡ ok (db1, x)
    → (db1.accounts ≡ db.accounts ++ a ∷ []) × (x ≡ a)
unfolding create
create-accounts a db db1 x e = (ground (arith, e), ground (arith, e))

persist_account-accounts :
    (draws : Draws) (a : Account) (db db' : Db) (x : Account)
    → persist_account draws a db ≡ ok (db', x)
    → (db'.accounts ≡ db.accounts ++ a ∷ []) × (x ≡ a)
unfolding persist_account
persist_account-accounts draws a db db' x e =
    let ((db1, y), at, rest) = >>=-eq-ok (create a db) _ e in
    let (added, same) = create-accounts a db db1 y at in
    let event = account_event draws "account.created" a in
    (ground (arith, rest, added, emit-accounts draws event db1), ground (arith, rest))

-- What a new managed account adds.
record Derived (draws : Draws) (derivation : Derivation) (key : String)
    (label representative : Option String) (db db' : Db) (a : Account) : Type 0 where
  new_key : by_account_key key db.accounts ≡ none
  free : has_index (derivation.index_of key) db.accounts ≡ false
  made : a ≡ managed_account draws derivation key label representative
  added : db'.accounts ≡ db.accounts ++ a ∷ []

remember_if-accounts :
    (draws : Draws) (scope : String) (key : Option String) (id : String) (db : Db)
    → (remember_if draws scope key id db).accounts ≡ db.accounts
remember_if-accounts draws scope none id db = refl
remember_if-accounts draws scope (some key) id db = ground arith

derive_account-Derived :
    (draws : Draws) (derivation : Derivation) (key : String)
    (label representative idempotency_key : Option String) (db db' : Db) (a : Account)
    → derive_account draws derivation key label representative idempotency_key db ≡ ok (db', a)
    → by_account_key key db.accounts ≡ none
    → Derived draws derivation key label representative db db' a
unfolding derive_account
derive_account-Derived draws derivation key label representative idempotency_key db db' a e
      new_key =
    elim (Bool-cases (has_index (derivation.index_of key) db.accounts)) [
      | inl taken ↦ absurd (ground (arith, e, taken))
      | inr free ↦
          let account = managed_account draws derivation key label representative in
          let ((db1, x), at, rest) =
            >>=-eq-ok (persist_account draws account db) _ (rw (derive_account, free) at e) in
          let (added, same) = persist_account-accounts draws account db db1 x at in
          let scope : String = "account.create.managed" in
          let same_db : remember_if draws scope idempotency_key x.id db1 ≡ db' =
            ground (arith, rest) in
          let same_account : x ≡ a = ground (arith, rest) in
          record {
            new_key = new_key;
            free = free;
            made = rw (← same_account) same;
            added =
                ap (λ (d : Db). d.accounts) (sym same_db)
                ∙ remember_if-accounts draws scope idempotency_key x.id db1
                ∙ added
                ∙ ap (λ y. db.accounts ++ y ∷ []) (sym same ∙ same_account);
          }
    ]

-- A request for a managed account without an idempotency key finds the account of its key, or makes
-- one.
account_of_key :
    (draws : Draws) (derivation : Derivation) (key : String) (label representative : Option String)
    (db db' : Db) (a : Account)
    → create_managed_account draws derivation key label representative none db ≡ ok (db', a)
    → ((by_account_key key db.accounts ≡ some a) × (db ≡ db'))
      ⊎ Derived draws derivation key label representative db db' a
unfolding create_managed_account
account_of_key draws derivation key label representative db db' a e =
    elim (Bool-cases (key == "")) [
      | inl blank ↦ absurd (ground (arith, e, blank))
      | inr given ↦ elim (Option-cases (by_account_key key db.accounts)) [
        | inr (b, known) ↦
            let same : ◌≡◌ {A = Result (Db × Account)} (ok (db, b)) (ok (db', a)) =
              ground (arith, e, given, known) in
            inl (known ∙ ap some (ground (arith, same)), ground (arith, same))
        | inl new_key ↦ inr (
            derive_account-Derived draws derivation key label representative none db db' a
              (ground (arith, e, given, new_key)) new_key)
      ]
    ]

by_key-last :
    (key : String) (rows : List Account) (a : Account)
    → by_account_key key rows ≡ none
    → (is_managed a && holds a.account_key key) ≡ true
    → by_account_key key (rows ++ a ∷ []) ≡ some a
by_key-last key [] a e h = rw h refl
by_key-last key (b ∷ rows) a e h = elim (Bool-cases (is_managed b && holds b.account_key key)) [
  | inl here ↦ absurd (ground (arith, e, here))
  | inr other ↦ rw other (by_key-last key rows a (ground (arith, e, other)) h)
]

-- A request for a managed account, made without an idempotency key, and a later one for the same
-- key are answered with the same account, and the later one changes nothing.
pub create_managed_account-again :
    (draws draws' : Draws) (derivation : Derivation) (key : String)
    (label representative label' representative' : Option String) (db db' : Db) (a : Account)
    → create_managed_account draws derivation key label representative none db ≡ ok (db', a)
    → create_managed_account draws' derivation key label' representative' none db' ≡ ok (db', a)
unfolding create_managed_account
create_managed_account-again draws draws' derivation key label representative label' representative'
      db db' a e =
    elim (Bool-cases (key == "")) [
      | inl blank ↦ absurd (ground (arith, e, blank))
      | inr given ↦
          let known = there (account_of_key draws derivation key label representative db db' a e) in
          rw (create_managed_account, given, known) refl
    ]
  where
    there :
        ((by_account_key key db.accounts ≡ some a) × (db ≡ db'))
          ⊎ Derived draws derivation key label representative db db' a
        → by_account_key key db'.accounts ≡ some a
    there (inl (known, same)) = rw (← same) known
    there (inr new) =
        ap (by_account_key key) new.added
        ∙ by_key-last key db.accounts a new.new_key (rw new.made (ground (arith, ==-refl key)))

-- The managed accounts with an index.
abbrev pub with_index : ℕ → List Account → List Account
with_index index =
    filter (λ (a : Account). is_managed a && option_beq a.derivation_index (some index))

-- The address and the index of a managed account are those of its key.
abbrev pub is_derived : Derivation → Account → Bool
is_derived derivation a = not (is_managed a) || (elim a.account_key [
  | none ↦ false
  | some key ↦
      option_beq a.derivation_index (some (derivation.index_of key))
      && a.address == derivation.address_of (derivation.index_of key)
])

pub record IsWallet (derivation : Derivation) (rows : List Account) : Type 0 where
  pub single : (index : ℕ) → length (with_index index rows) ≤ 1
  pub derived : all (is_derived derivation) rows ≡ true

none_with_index :
    (index : ℕ) (rows : List Account)
    → has_index index rows ≡ false
    → length (with_index index rows) ≡ 0
none_with_index index [] h = refl
none_with_index index (a ∷ rows) h =
    elim (Bool-cases (is_managed a && option_beq a.derivation_index (some index))) [
      | inl here ↦ absurd (ground (arith, h, here))
      | inr other ↦ rw other (none_with_index index rows (ground (arith, h, other)))
    ]

all-last :
    (p : Account → Bool) (rows : List Account) (a : Account)
    → all p rows ≡ true
    → p a ≡ true
    → all p (rows ++ a ∷ []) ≡ true
all-last p [] a h k = ground (arith, k)
all-last p (b ∷ rows) a h k = ground (arith, h, all-last p rows a)

with_index-last :
    (index : ℕ) (rows : List Account) (a : Account)
    → length (with_index index (rows ++ a ∷ []))
      ≡ length (with_index index rows)
        + (if is_managed a && option_beq a.derivation_index (some index) then 1 else 0)
with_index-last index [] a = ground arith
with_index-last index (b ∷ rows) a =
    elim (Bool-cases (is_managed b && option_beq b.derivation_index (some index))) [
      | inl here ↦ rw here (omega (arith, with_index-last index rows a))
      | inr other ↦ rw other (with_index-last index rows a)
    ]

IsWallet-last :
    (draws : Draws) (derivation : Derivation) (key : String) (label representative : Option String)
    (rows : List Account)
    → IsWallet derivation rows
    → has_index (derivation.index_of key) rows ≡ false
    → IsWallet derivation (rows ++ managed_account draws derivation key label representative ∷ [])
IsWallet-last draws derivation key label representative rows inv free = record {
  single = λ index.
      let last = with_index-last index rows account in
      elim (Bool-cases (derivation.index_of key == index)) [
        | inl here ↦
            let same = (nat_eq.equals_iff (derivation.index_of key) index).0 here in
            let none_yet =
              none_with_index index rows (ap (λ i. has_index i rows) (sym same) ∙ free) in
            ground (arith, last, none_yet, here)
        | inr other ↦ let before = inv.single index in ground (arith, last, before, other)
      ];
  derived = all-last (is_derived derivation) rows account inv.derived (
      ground (
        arith,
        ==-refl (derivation.index_of key),
        ==-refl (derivation.address_of (derivation.index_of key)),
      ));
}
  where
    account : Account
    account = managed_account draws derivation key label representative

-- A request for a managed account changes nothing, or makes the account of its key.
same_or_new :
    (draws : Draws) (derivation : Derivation) (key : String)
    (label representative idempotency_key : Option String) (db db' : Db) (a : Account)
    → create_managed_account draws derivation key label representative idempotency_key db
      ≡ ok (db', a)
    → (db ≡ db') ⊎ Derived draws derivation key label representative db db' a
unfolding create_managed_account
same_or_new draws derivation key label representative idempotency_key db db' a e =
    elim (Bool-cases (key == "")) [
      | inl blank ↦ absurd (ground (arith, e, blank))
      | inr given ↦ elim (Option-cases (replayed_if "account.create.managed" idempotency_key db)) [
        | inr (b, replayed) ↦
            let same : ◌≡◌ {A = Result (Db × Account)} (ok (db, b)) (ok (db', a)) =
              ground (arith, e, given, replayed) in
            inl (ground (arith, same))
        | inl new ↦ elim (Option-cases (by_account_key key db.accounts)) [
          | inr (b, known) ↦
              let same : ◌≡◌ {A = Result (Db × Account)} (ok (db, b)) (ok (db', a)) =
                ground (arith, e, given, new, known) in
              inl (ground (arith, same))
          | inl new_key ↦ inr (
              derive_account-Derived draws derivation key label representative idempotency_key db
                db' a (ground (arith, e, given, new, new_key)) new_key)
        ]
      ]
    ]

-- A request for a managed account, with or without an idempotency key, keeps the wallet in order: no two managed accounts have one index,
-- and each has the index and the address of its key.
pub create_managed_account-IsWallet :
    (draws : Draws) (derivation : Derivation) (key : String)
    (label representative idempotency_key : Option String) (db db' : Db) (a : Account)
    → IsWallet derivation db.accounts
    → create_managed_account draws derivation key label representative idempotency_key db
      ≡ ok (db', a)
    → IsWallet derivation db'.accounts
create_managed_account-IsWallet draws derivation key label representative idempotency_key db db' a
      inv e =
    elim (same_or_new draws derivation key label representative idempotency_key db db' a e) [
      | inl same ↦ rw (← same) inv
      | inr new ↦
          rw (new.added, new.made)
            (IsWallet-last draws derivation key label representative db.accounts inv new.free)
    ]
