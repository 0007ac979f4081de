-- ===== src/Accounts/Tests.antt =====
-- Requests on small stores, and witnesses.
use rai_flow.Prelude.{ℕ, ◌≡◌, refl, none, some, [], ◌==◌, string_eq, nat_eq, if◌then◌else◌, arith}
use rai_flow.Model.{Account}
use rai_flow.Model.Errors.{Result, ok, err}
use rai_flow.Storage.Db.{Db, empty_db, append_event}
use rai_flow.Storage.Refunds.Sends.{list_by_account}
use rai_flow.Idempotency.Store as Keys
use rai_flow.Accounts.Store.{create, delete}
use rai_flow.Accounts.Runtime.{
  Draws, Derivation, managed_account, persist_account, derive_account, create_managed_account,
  remove_row, remove_account, delete_account,
}
use rai_flow.Accounts.Removal.{Removed, delete_account-Removed}
use rai_flow.Accounts.Derived.{
  IsWallet, create_managed_account-again, create_managed_account-IsWallet,
}

abbrev draws : ℕ → Draws
draws n = record {
  now = n;
  account_id = if n == 1 then "a1" else "a2";
  event_id = if n == 1 then "e1" else "e2";
  job_uuid = λ event_id webhook_id. webhook_id;
}

abbrev derivation : Derivation
derivation = record {
  index_of = λ key. if key == "shop" then 5 else 6;
  address_of = λ index. if index == 5 then "nano_5" else "nano_6";
}

abbrev db_of : {A : Type 0} → Result (Db × A) → Db
db_of (ok (db, a)) = db
db_of (err e) = empty_db

abbrev shop : Account
shop = managed_account (draws 1) derivation "shop" none none

abbrev with_shop : Db
with_shop = db_of (create_managed_account (draws 1) derivation "shop" none none none empty_db)

shop_made :
    create_managed_account (draws 1) derivation "shop" none none none empty_db
    ≡ ok (with_shop, shop)
unfolding create_managed_account derive_account persist_account create append_event
shop_made = refl

create_managed_account-again_example :
    create_managed_account (draws 2) derivation "shop" (some "till") none none with_shop
    ≡ ok (with_shop, shop)
create_managed_account-again_example =
    create_managed_account-again (draws 1) (draws 2) derivation "shop" none none (some "till") none
      empty_db with_shop shop shop_made

empty-IsWallet : IsWallet derivation []
empty-IsWallet = record { single = λ index. omega arith; derived = refl }

create_managed_account-IsWallet_example : IsWallet derivation with_shop.accounts
create_managed_account-IsWallet_example =
    create_managed_account-IsWallet (draws 1) derivation "shop" none none none empty_db with_shop
      shop empty-IsWallet shop_made

abbrev without_shop : Db
without_shop = db_of (delete_account (draws 2) "a1" "k" with_shop)

shop_removed : delete_account (draws 2) "a1" "k" with_shop ≡ ok (without_shop, some shop)
unfolding delete_account remove_account remove_row delete list_by_account create_managed_account
    derive_account persist_account create append_event Keys.get
shop_removed = refl

delete_account-Removed_example : Removed "a1" shop with_shop without_shop
delete_account-Removed_example =
    delete_account-Removed (draws 2) "a1" "k" with_shop without_shop shop shop_removed
