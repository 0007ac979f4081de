-- ===== src/Storage/Ingest/Steps.antt =====
-- The steps of the ingest transaction that record a block: which invoice it is for, whether there
-- is room for it, its deposit and its receive task.
use rai_flow.Prelude.{
  ℕ, ◌+◌, String, Bool, true, false, ◌&&◌, Option, none, some, List, [], ◌∷◌, ◌++◌, map, ◌==◌,
  string_eq, ltb, leb, if◌then◌else◌, find, filter, any, length, or_else, and_then, is_some,
}
use mathlib.Core.Option
use rai_flow.Model.{
  Invoice, open_, Payment, Deposit, DepositDisposition, matched, partial, excess, late, unmatched,
  Account, InvoiceAccount, ReceiveTask, ReceiveTaskStatus, ConfirmedBlock, invoice_status_eq,
}
use rai_flow.Model.Errors.{Result, ok, err, plain, ◌>>=◌}
use rai_flow.Storage.Db.{Db}
use rai_flow.Storage.Ingest.Inputs.{
  Limits, pause_at_bytes, Host, deposit_site, task_site, non_empty, oldest, paid,
}

-- The rows that the transaction reads first.
pub record Located : Type 0 where
  pub deposit_row : Option Deposit
  pub payment_row : Option Payment
  pub invoice_row : Option Invoice

abbrev pub candidate_id : Option Deposit → Option Invoice → Option String
candidate_id none candidate = Option.map (λ (i : Invoice). i.id) candidate
candidate_id (some d) candidate = none

unfoldable pub invoice_id_for : Option Payment → Option Deposit → Option Invoice → Option String
invoice_id_for payment deposit candidate =
    or_else (Option.map (λ (p : Payment). p.invoice_id) payment)
      (or_else (and_then deposit (λ (d : Deposit). d.invoice_id)) (candidate_id deposit candidate))

-- `SELECT * FROM invoices WHERE id = ?`, and the error where the id is dangling.
abbrev pub invoice_with_id : List Invoice → Option String → Result (Option Invoice)
invoice_with_id invoices none = ok none
invoice_with_id invoices (some id) = elim (find (λ (i : Invoice). i.id == id) invoices) [
  | none ↦ err (plain "Invoice not found while ingesting deposit")
  | some row ↦ ok (some row)
]

abbrev pub deposit_by_hash : String → List Deposit → Option Deposit
deposit_by_hash hash = find (λ (d : Deposit). d.block_hash == hash)

abbrev pub payment_by_hash : String → List Payment → Option Payment
payment_by_hash hash = find (λ (p : Payment). p.block_hash == hash)

-- The id of the invoice that the block is for.
unfoldable pub wanted_id : Db → ConfirmedBlock → Option String
unfolding invoice_id_for
wanted_id db block =
    invoice_id_for (payment_by_hash block.block_hash db.payments)
      (deposit_by_hash block.block_hash db.deposits)
      (oldest (filter (λ (i : Invoice). i.pay_address == block.recipient_account) db.invoices))

unfoldable pub locate : Db → ConfirmedBlock → Result Located
locate db block = do
  invoice ← invoice_with_id db.invoices (wanted_id db block)
  ok (record {
    deposit_row = deposit_by_hash block.block_hash db.deposits;
    payment_row = payment_by_hash block.block_hash db.payments;
    invoice_row = invoice;
  })

-- The number of deposits that a destination has.
abbrev pub deposits_of : String → List Deposit → ℕ
deposits_of address deposits =
    length (filter (λ (d : Deposit). d.recipient_account == address) deposits)

-- The storage budget: only a block with no deposit yet is refused.
unfoldable pub admit : Limits → Host → Db → ConfirmedBlock → Option Deposit → Result (Unit {0})
admit limits host db block (some d) = ok tt
admit limits host db block none =
    if leb (pause_at_bytes limits) host.database_bytes
    then err (plain "storage budget exceeded: global")
    else if leb limits.max_deposits_per_account (deposits_of block.recipient_account db.deposits)
    then err (plain "storage budget exceeded: account")
    else ok tt

abbrev pub compare_amounts : ℕ → ℕ → DepositDisposition
compare_amounts projected expected =
    if ltb expected projected then excess else if ltb projected expected then partial else matched

unfoldable pub disposition_of : Db → ConfirmedBlock → Located → DepositDisposition
disposition_of db block l = elim l.deposit_row [
  | some d ↦ d.disposition
  | none ↦ elim l.invoice_row [
    | none ↦ unmatched
    | some i ↦
        if i.status == open_
        then compare_amounts
            (paid i.id db.payments + (if is_some l.payment_row then 0 else block.amount_raw))
            i.expected_amount_raw
        else late
  ]
]

-- `UPDATE deposits SET invoice_id = ? WHERE block_hash = ? AND invoice_id IS NULL`
unfoldable pub link_deposit : Option String → Deposit → List Deposit → List Deposit
link_deposit invoice_id d rows =
    map
      (λ (r : Deposit).
        if r.block_hash == d.block_hash
        then record r { invoice_id = or_else r.invoice_id invoice_id }
        else r)
      rows

abbrev pub new_deposit : Host → ConfirmedBlock → Option String → DepositDisposition → Deposit
new_deposit host block invoice_id disposition = record {
  id = host.uuid deposit_site;
  block_hash = block.block_hash;
  recipient_account = block.recipient_account;
  sender_account = non_empty block.sender_account;
  amount_raw = block.amount_raw;
  invoice_id = invoice_id;
  disposition = disposition;
  confirmed_at = block.confirmed_at;
}

-- INSERT INTO deposits: `block_hash` is the primary key and `id` is unique.
unfoldable pub insert_deposit : Deposit → Db → Result Db
insert_deposit d db =
    if any (λ (r : Deposit). r.block_hash == d.block_hash) db.deposits
    then err (plain "UNIQUE constraint failed: deposits.block_hash")
    else if any (λ (r : Deposit). r.id == d.id) db.deposits
    then err (plain "UNIQUE constraint failed: deposits.id")
    else ok (record db { deposits = db.deposits ++ d ∷ [] })

-- The deposit of the block, and whether this transaction created it.
unfoldable pub store_deposit :
    Host
    → ConfirmedBlock
    → Option String
    → DepositDisposition
    → Option Deposit
    → Db
    → Result (Db × Deposit × Bool)
unfolding link_deposit insert_deposit
store_deposit host block invoice_id disposition (some d) db = ok (
  record db { deposits = link_deposit invoice_id d db.deposits },
  record d { invoice_id = or_else d.invoice_id invoice_id },
  false,
)
store_deposit host block invoice_id disposition none db = do
  let d = new_deposit host block invoice_id disposition
  db' ← insert_deposit d db
  ok (db', d, true)

-- The derivation index of a custodial address: an invoice account's, or else a managed account's.
abbrev pub custodial_index : String → Db → Option ℕ
custodial_index address db =
    or_else
      (Option.map (λ (a : InvoiceAccount). a.derivation_index)
        (find (λ (a : InvoiceAccount). a.address == address) db.invoice_accounts))
      (and_then
        (find (λ (a : Account). a.address == address && is_some a.derivation_index) db.accounts)
        (λ (a : Account). a.derivation_index))

-- INSERT INTO receive_tasks … ON CONFLICT(pending_block_hash) DO NOTHING
unfoldable pub insert_task : ReceiveTask → Db → Result Db
insert_task t db =
    if any (λ (r : ReceiveTask). r.pending_block_hash == t.pending_block_hash) db.receive_tasks
    then ok db
    else if any (λ (r : ReceiveTask). r.id == t.id) db.receive_tasks
    then err (plain "UNIQUE constraint failed: receive_tasks.id")
    else ok (record db { receive_tasks = db.receive_tasks ++ t ∷ [] })

abbrev pub new_task : Host → ConfirmedBlock → ℕ → ReceiveTask
new_task host block derivation_index = record {
  id = host.uuid task_site;
  account_address = block.recipient_account;
  derivation_index = derivation_index;
  pending_block_hash = block.block_hash;
  amount_raw = block.amount_raw;
  status = ReceiveTaskStatus.pending;
  receive_block_hash = none;
  created_at = host.now task_site;
  published_at = none;
  confirmed_at = none;
  failed_at = none;
  fail_reason = none;
  retry_count = 0;
}

unfoldable pub ensure_receive_task : Host → ConfirmedBlock → Db → Result Db
unfolding insert_task
ensure_receive_task host block db =
    if block.already_received then ok db else elim (custodial_index block.recipient_account db) [
      | none ↦ ok db
      | some index ↦ insert_task (new_task host block index) db
    ]
