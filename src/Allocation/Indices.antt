-- ===== src/Allocation/Indices.antt =====
-- The indices that `getOrCreate` allocates.
use rai_flow.Prelude.{
  ℕ, ◌+◌, ◌≤◌, ◌<◌, String, Bool, true, false, ◌≡◌, refl, Option, none, some, List, [], ◌∷◌, ◌++◌,
  ◌==◌, string_eq, nat_eq, ltb, leb, any, arith, eq_iff, inl, inr, ◌⊎◌, Bool-cases, Option-cases,
  ==-refl, ◌∙◌,
}
use rai_flow.Model.{InvoiceAccount}
use rai_flow.Model.Errors.{ok, err, plain}
use rai_flow.Allocation.Store.{
  account_of, existing, max_index, next_index, key_taken, insert_account, new_account, by_index,
  get_or_create,
}

abbrev is_below : Option ℕ → ℕ → Bool
is_below none index = true
is_below (some m) index = ltb m index

absent_above :
    (start end_ index : ℕ) (rows : List InvoiceAccount)
    → start ≤ index
    → index < end_
    → is_below (max_index start end_ rows) index ≡ true
    → any (λ (r : InvoiceAccount). r.derivation_index == index) rows ≡ false
unfolding max_index
absent_above start end_ index [] p q h = refl
absent_above start end_ index (a ∷ rows) p q h = ground (arith, absent_above start end_ index rows)

-- No row has the next index: those in the range are below it.
next_index-fresh :
    (start end_ : ℕ) (rows : List InvoiceAccount)
    → next_index start end_ rows < end_
    → (start ≤ next_index start end_ rows)
      × (any (λ (r : InvoiceAccount). r.derivation_index == next_index start end_ rows) rows
          ≡ false)
unfolding next_index
next_index-fresh start end_ rows h =
    let low : start ≤ next_index start end_ rows = ground arith in
    (low, absent_above start end_ (next_index start end_ rows) rows low h (ground arith))

-- The highest index of the range is in the range, and some row has it.
max_index-present :
    (start end_ m : ℕ) (rows : List InvoiceAccount)
    → max_index start end_ rows ≡ some m
    → (m < end_) × (any (λ (r : InvoiceAccount). r.derivation_index == m) rows ≡ true)
unfolding max_index
max_index-present start end_ m [] e = cc
max_index-present start end_ m (a ∷ rows) e = elim (Option-cases (max_index start end_ rows)) [
  | inl none_left ↦ (ground (arith, none_left), ground (arith, none_left))
  | inr (k, rest) ↦
      let (low, present) = max_index-present start end_ k rows rest in
      elim (Bool-cases (m == k)) [
        | inl here ↦
            let same = (nat_eq.equals_iff m k).0 here in
            (rw same low, ground (arith, same, present))
        | inr other ↦ (ground (arith, rest, low), ground (arith, rest))
      ]
]

any-last :
    (m end_ : ℕ) (rows : List InvoiceAccount)
    → m + 1 ≡ end_
    → any (λ (r : InvoiceAccount). r.derivation_index + 1 == end_) rows
      ≡ any (λ (r : InvoiceAccount). r.derivation_index == m) rows
any-last m end_ [] e = refl
any-last m end_ (r ∷ rows) e = ground (arith, any-last m end_ rows)

-- A range is used up where it is empty, or where its last index is taken.
next_index-full :
    (start end_ : ℕ) (rows : List InvoiceAccount)
    → end_ ≤ next_index start end_ rows
    → (end_ ≤ start) ⊎ (any (λ (r : InvoiceAccount). r.derivation_index + 1 == end_) rows ≡ true)
unfolding next_index
next_index-full start end_ rows h = elim (Option-cases (max_index start end_ rows)) [
  | inl none_left ↦ inl (ground (arith, none_left))
  | inr (m, top) ↦
      let (low, present) = max_index-present start end_ m rows top in
      elim (Bool-cases (leb end_ start)) [
        | inl empty ↦ inl (ground arith)
        | inr wide ↦
            let last : m + 1 ≡ end_ = ground (arith, top, low) in
            inr (any-last m end_ rows last ∙ present)
      ]
]

existing-key_taken :
    (account_key : String) (invoice_key : Option String) (rows : List InvoiceAccount)
    → existing account_key invoice_key rows ≡ none
    → key_taken account_key invoice_key rows ≡ false
existing-key_taken account_key none rows h = refl
existing-key_taken account_key (some key) [] h = refl
existing-key_taken account_key (some key) (a ∷ rows) h =
    ground (arith, existing-key_taken account_key (some key) rows)

by_index-append :
    (a : InvoiceAccount) (rows : List InvoiceAccount)
    → any (λ (r : InvoiceAccount). r.derivation_index == a.derivation_index) rows ≡ false
    → by_index a.derivation_index (rows ++ a ∷ []) ≡ some a
by_index-append a [] h = ground arith
by_index-append a (r ∷ rows) h = ground (arith, by_index-append a rows)

-- A new pair of keys, with room in the range.
get_or_create-new :
    (account_key : String) (invoice_key : Option String) (start end_ : ℕ)
    (derive_address : ℕ → String) (now : ℕ) (rows : List InvoiceAccount)
    → existing account_key invoice_key rows ≡ none
    → leb end_ (next_index start end_ rows) ≡ false
    → any (λ (r : InvoiceAccount). r.derivation_index == next_index start end_ rows) rows ≡ false
    → get_or_create account_key invoice_key start end_ derive_address now rows
      ≡ ok (
        rows
            ++ new_account account_key invoice_key (next_index start end_ rows) derive_address now
              ∷ [],
        new_account account_key invoice_key (next_index start end_ rows) derive_address now,
      )
unfolding get_or_create insert_account
get_or_create-new account_key invoice_key start end_ derive_address now rows unknown room fresh =
    ground (
      arith,
      existing-key_taken account_key invoice_key rows unknown,
      by_index-append
          (new_account account_key invoice_key (next_index start end_ rows) derive_address now) rows
          fresh,
    )

-- A known pair of keys gets the account that it has. Otherwise the call fails, and then the range is
-- empty or an account has its last index; or it adds one account: its index is in the range, no account had it, and its
-- address is the one derived for it.
pub get_or_create_lem :
    (account_key : String) (invoice_key : Option String) (start end_ : ℕ)
    (derive_address : ℕ → String) (now : ℕ) (rows : List InvoiceAccount)
    → let result = get_or_create account_key invoice_key start end_ derive_address now rows in
      ((a : InvoiceAccount) × (existing account_key invoice_key rows ≡ some a)
        × (result ≡ ok (rows, a)))
      ⊎ ((existing account_key invoice_key rows ≡ none)
          × ((((end_ ≤ start)
                  ⊎ (any (λ (r : InvoiceAccount). r.derivation_index + 1 == end_) rows ≡ true))
                × (result ≡ err (plain "Invoice derivation range exhausted")))
              ⊎ ((a : InvoiceAccount) × (result ≡ ok (rows ++ a ∷ [], a))
                  × (start ≤ a.derivation_index)
                  × (a.derivation_index < end_)
                  × (any (λ (r : InvoiceAccount). r.derivation_index == a.derivation_index) rows
                      ≡ false)
                  × (a.address ≡ derive_address a.derivation_index))))
unfolding get_or_create
get_or_create_lem account_key invoice_key start end_ derive_address now rows =
    elim (Option-cases (existing account_key invoice_key rows)) [
      | inr (a, known) ↦ inl (a, known, ground arith)
      | inl unknown ↦ inr (
        unknown,
        elim (Bool-cases (leb end_ (next_index start end_ rows))) [
          | inl full ↦ inl (next_index-full start end_ rows (ground arith), ground arith)
          | inr room ↦
              let a =
                new_account account_key invoice_key (next_index start end_ rows) derive_address
                  now in
              let (low, fresh) = next_index-fresh start end_ rows (ground arith) in
              inr (
                a,
                get_or_create-new account_key invoice_key start end_ derive_address now rows unknown
                    room fresh,
                low,
                ground arith,
                fresh,
                refl,
              )
        ],
      )
    ]

existing-append :
    (account_key : String) (key : String) (rows : List InvoiceAccount) (a : InvoiceAccount)
    → account_of account_key key rows ≡ none
    → a.account_key ≡ account_key
    → a.invoice_key ≡ some key
    → account_of account_key key (rows ++ a ∷ []) ≡ some a
existing-append account_key key [] a h p q =
    ground (arith, eq_iff a.account_key account_key, ==-refl key)
existing-append account_key key (r ∷ rows) a h p q =
    ground (arith, existing-append account_key key rows a)

get_or_create-account_of :
    (account_key key : String) (start end_ : ℕ) (derive : ℕ → String) (now : ℕ)
    (rows rows' : List InvoiceAccount) (a : InvoiceAccount)
    → get_or_create account_key (some key) start end_ derive now rows ≡ ok (rows', a)
    → account_of account_key key rows' ≡ some a
get_or_create-account_of account_key key start end_ derive now rows rows' a e =
    elim (Option-cases (account_of account_key key rows)) [
      | inr (b, known) ↦ unfold get_or_create in ground arith
      | inl unknown ↦ elim (Bool-cases (leb end_ (next_index start end_ rows))) [
        | inl full ↦ absurd (unfold get_or_create in ground arith)
        | inr room ↦
            let (low, fresh) = next_index-fresh start end_ rows (ground arith) in
            let b = new_account account_key (some key) (next_index start end_ rows) derive now in
            let made =
              get_or_create-new account_key (some key) start end_ derive now rows unknown room
                fresh in
            let found = existing-append account_key key rows b unknown refl refl in
            ground (arith, made, found)
      ]
    ]

-- A request for an account.
pub record Request : Type 0 where
  pub account_key : String
  pub invoice_key : Option String
  pub start : ℕ
  pub end_ : ℕ
  pub derive_address : ℕ → String
  pub now : ℕ

-- The rows after some requests; one that fails leaves them as they are.
unfoldable pub after : List Request → List InvoiceAccount → List InvoiceAccount
after [] rows = rows
after (r ∷ rs) rows =
    elim (get_or_create r.account_key r.invoice_key r.start r.end_ r.derive_address r.now rows) [
      | err e ↦ after rs rows
      | ok (rows', a) ↦ after rs rows'
    ]

account_of-append :
    (account_key key : String) (rows : List InvoiceAccount) (a b : InvoiceAccount)
    → account_of account_key key rows ≡ some a
    → account_of account_key key (rows ++ b ∷ []) ≡ some a
account_of-append account_key key [] a b h = cc
account_of-append account_key key (r ∷ rows) a b h =
    ground (arith, account_of-append account_key key rows a b)

account_of-after :
    (rs : List Request) (account_key key : String) (rows : List InvoiceAccount) (a : InvoiceAccount)
    → account_of account_key key rows ≡ some a
    → account_of account_key key (after rs rows) ≡ some a
unfolding after
account_of-after [] account_key key rows a h = h
account_of-after (r ∷ rs) account_key key rows a h =
    elim (get_or_create_lem r.account_key r.invoice_key r.start r.end_ r.derive_address r.now
      rows) [
        | inl (b, known, same) ↦ rw (after, same) (account_of-after rs account_key key rows a h)
        | inr (unknown, inl (full, failed)) ↦
            rw (after, failed) (account_of-after rs account_key key rows a h)
        | inr (unknown, inr (b, made, low, high, fresh, derived)) ↦
            rw (after, made)
              (account_of-after rs account_key key (rows ++ b ∷ []) a
                (account_of-append account_key key rows a b h))
      ]

-- Asking again for an account under the same invoice key, after any other requests for accounts and
-- with any range and derivation, gives the account of the first time and changes nothing.
pub get_or_create-get_or_create :
    (account_key key : String) (start end_ start' end' : ℕ) (derive derive' : ℕ → String)
    (now now' : ℕ) (rows rows' : List InvoiceAccount) (a : InvoiceAccount) (rs : List Request)
    → get_or_create account_key (some key) start end_ derive now rows ≡ ok (rows', a)
    → get_or_create account_key (some key) start' end' derive' now' (after rs rows')
      ≡ ok (after rs rows', a)
unfolding get_or_create
get_or_create-get_or_create account_key key start end_ start' end' derive derive' now now' rows
      rows' a rs e =
    let known =
      account_of-after rs account_key key rows' a
        (get_or_create-account_of account_key key start end_ derive now rows rows' a e) in
    rw (get_or_create, known) refl
