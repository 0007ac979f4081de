-- ===== src/Allocation/Tests.antt =====
-- Two accounts in the range from 100 to 103.
use rai_flow.Prelude.{
  ℕ, ◌+◌, true, ◌≤◌, ◌<◌, String, false, ◌≡◌, refl, none, some, List, [], ◌∷◌, ◌++◌, ◌⊎◌, any, ◌==◌,
  nat_eq,
}
use rai_flow.Model.{InvoiceAccount}
use rai_flow.Model.Errors.{ok, err, plain}
use rai_flow.Allocation.Store.{
  existing, max_index, next_index, insert_account, new_account, get_or_create,
}
use rai_flow.Allocation.Indices.{get_or_create_lem, Request, after, get_or_create-get_or_create}

abbrev derive : ℕ → String
derive index = "nano_x"

abbrev rows : List InvoiceAccount
rows = new_account "shop" (some "one") 100 derive 5 ∷ []

abbrev second : InvoiceAccount
second = new_account "shop" (some "two") 101 derive 6

get_or_create_lem_example :
    ((a : InvoiceAccount) × (existing "shop" (some "two") rows ≡ some a)
      × (get_or_create "shop" (some "two") 100 103 derive 6 rows ≡ ok (rows, a)))
    ⊎ ((existing "shop" (some "two") rows ≡ none)
        × ((((103 ≤ 100)
                ⊎ (any (λ (r : InvoiceAccount). r.derivation_index + 1 == 103) rows ≡ true))
              × (get_or_create "shop" (some "two") 100 103 derive 6 rows
                  ≡ err (plain "Invoice derivation range exhausted")))
            ⊎ ((a : InvoiceAccount) × (get_or_create "shop" (some "two") 100 103 derive 6 rows
                  ≡ ok (rows ++ a ∷ [], a))
                × (100 ≤ a.derivation_index)
                × (a.derivation_index < 103)
                × (any (λ (r : InvoiceAccount). r.derivation_index == a.derivation_index) rows
                    ≡ false)
                × (a.address ≡ derive a.derivation_index))))
get_or_create_lem_example = get_or_create_lem "shop" (some "two") 100 103 derive 6 rows

ran : get_or_create "shop" (some "two") 100 103 derive 6 rows ≡ ok (rows ++ second ∷ [], second)
unfolding get_or_create next_index max_index insert_account
ran = refl

-- Another account comes between.
abbrev between : List Request
between =
    record {
      account_key = "shop";
      invoice_key = none;
      start = 100;
      end_ = 103;
      derive_address = derive;
      now = 7;
    }
    ∷ []

get_or_create-get_or_create_example :
    get_or_create "shop" (some "two") 0 1 derive 9 (after between (rows ++ second ∷ []))
    ≡ ok (after between (rows ++ second ∷ []), second)
get_or_create-get_or_create_example =
    get_or_create-get_or_create "shop" "two" 100 103 0 1 derive derive 6 9 rows
      (rows ++ second ∷ []) second between ran
