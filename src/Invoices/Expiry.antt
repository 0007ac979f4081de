-- ===== src/Invoices/Expiry.antt =====
-- What an expiry check does to each invoice.
use rai_flow.Prelude.{
  ℕ, String, Bool, true, ◌&&◌, ◌||◌, ◌≡◌, refl, ◌∙◌, some, List, [], ◌∷◌, ◌==◌, string_eq,
  if◌then◌else◌, arith, eq_iff, inl, inr, Bool-cases, filter, any, All, ap,
}
use mathlib.Core.Path.{subst}
use rai_flow.Model.{Invoice, open_, invoice_status_eq}
use rai_flow.Storage.Db.{Db}
use rai_flow.Invoices.Store.{get, patched, list_by_status, newest_first, insert_newest}
use rai_flow.Invoices.Runtime.{Host, is_due, expire_one, expire_all, run_expiry_check, expire_patch}
use rai_flow.Invoices.Terminal.{get-expire_one}

-- One row for each id: the row of an id is the row itself.
abbrev pub Unique : List Invoice → List Invoice → Type 0
Unique rows = All (λ (x : Invoice). get x.id rows ≡ some x)

abbrev names_due : ℕ → String → Invoice → Bool
names_due now j x = x.id == j && is_due now x

any-insert_newest :
    (p : Invoice → Bool) (x : Invoice) (xs : List Invoice)
    → any p (insert_newest x xs) ≡ (p x || any p xs)
unfolding insert_newest
any-insert_newest p x [] = refl
any-insert_newest p x (y ∷ xs) = ground (arith, any-insert_newest p x xs)

any-newest_first : (p : Invoice → Bool) (xs : List Invoice) → any p (newest_first xs) ≡ any p xs
unfolding newest_first
any-newest_first p [] = refl
any-newest_first p (x ∷ xs) =
    any-insert_newest p x (newest_first xs) ∙ ground (arith, any-newest_first p xs)

any-filter :
    {A : Type 0} (p q : A → Bool) (xs : List A) → any p (filter q xs) ≡ any (λ x. q x && p x) xs
any-filter p q [] = refl
any-filter p q (x ∷ xs) = ground (arith, any-filter p q xs)

get-expire_all :
    (host : Host) (is : List Invoice) (db : Db) (j : String) (r : Invoice)
    → get j db.invoices ≡ some r
    → get j (expire_all host is db).invoices
      ≡ some (
          if any (names_due host.now j) is && r.status == open_
          then patched expire_patch host.now r
          else r)
unfolding expire_all
get-expire_all host [] db j r e = ground arith
get-expire_all host (i ∷ is) db j r e =
    elim (Bool-cases (names_due host.now j i && r.status == open_)) [
      | inl hit ↦
          let here : get j (expire_one host i db).invoices
              ≡ some (patched expire_patch host.now r) =
            ground (arith, get-expire_one host i j db) in
          get-expire_all host is (expire_one host i db) j (patched expire_patch host.now r) here
          ∙ ground arith
      | inr miss ↦
          let here : get j (expire_one host i db).invoices ≡ some r =
            ground (arith, get-expire_one host i j db) in
          get-expire_all host is (expire_one host i db) j r here ∙ ground arith
    ]

-- Under unique ids, the rows that name an id and are due are the row of the id.
any-names_due :
    (now : ℕ) (j : String) (r : Invoice) (rows xs : List Invoice)
    → Unique rows xs
    → get j rows ≡ some r
    → any (λ (x : Invoice). x.status == open_ && names_due now j x) xs
      ≡ (any (λ (x : Invoice). x.id == j) xs && (r.status == open_ && is_due now r))
any-names_due now j r rows [] u e = refl
any-names_due now j r rows (x ∷ xs) (u, us) e = elim (Bool-cases (x.id == j)) [
  | inl here ↦
      let at : x.id ≡ j = (eq_iff x.id j).0 here in
      let same : r ≡ x = ground (arith, u, ap (λ (k : String). get k rows) at) in
      subst
        (λ (y : Invoice).
          any (λ (z : Invoice). z.status == open_ && names_due now j z) (y ∷ xs)
          ≡ (any (λ (z : Invoice). z.id == j) (y ∷ xs) && (r.status == open_ && is_due now r)))
        same (ground (arith, any-names_due now j r rows xs us e))
  | inr other ↦ ground (arith, any-names_due now j r rows xs us e)
]

any-id :
    (j : String) (rows : List Invoice) (r : Invoice)
    → get j rows ≡ some r
    → any (λ (x : Invoice). x.id == j) rows ≡ true
any-id j [] r e = cc
any-id j (x ∷ rows) r e = ground (arith, any-id j rows r)

-- Where ids are unique, an expiry check turns the row of each id into an expired one exactly where
-- the invoice was open and due, and leaves it as it was otherwise.
pub get-run_expiry_check :
    (host : Host) (db : Db) (id : String) (i : Invoice)
    → Unique db.invoices db.invoices
    → get id db.invoices ≡ some i
    → get id (run_expiry_check host db).invoices
      ≡ some (if i.status == open_ && is_due host.now i then patched expire_patch host.now i else i)
unfolding run_expiry_check list_by_status
get-run_expiry_check host db id i u e =
    get-expire_all host (list_by_status open_ db.invoices) db id i e
    ∙ ground (
      arith,
      any-newest_first (names_due host.now id)
          (filter (λ (x : Invoice). x.status == open_) db.invoices),
      any-filter (names_due host.now id) (λ (x : Invoice). x.status == open_) db.invoices,
      any-names_due host.now id i db.invoices db.invoices u e,
      any-id id db.invoices i e,
    )
