-- ===== src/Orchestrators/Tasks.antt =====
-- `createSqliteReceiveTaskStore` of packages/storage/src/index.ts.
use rai_flow.Prelude.{
  ℕ, String, Option, none, some, List, [], ◌∷◌, ◌++◌, map, ◌==◌, string_eq, if◌then◌else◌, find,
  filter, any, leb, is_some, Bool, not, ◌&&◌, ◌||◌,
}
use rai_flow.Model.{ReceiveTask, ReceiveTaskStatus, task_status_eq}
use rai_flow.Model.Errors.{Result, ok, err, plain}
use rai_flow.Storage.Db.{Db}

abbrev pub get : String → List ReceiveTask → Option ReceiveTask
get id = find (λ (t : ReceiveTask). t.id == id)

abbrev pub get_by_pending_block_hash : String → List ReceiveTask → Option ReceiveTask
get_by_pending_block_hash hash = find (λ (t : ReceiveTask). t.pending_block_hash == hash)

-- INSERT INTO receive_tasks, of a task whose id and time are drawn: the id and the pending hash are
-- unique.
unfoldable pub create : ReceiveTask → Db → Result (Db × ReceiveTask)
create task db =
    if any (λ (t : ReceiveTask). t.id == task.id) db.receive_tasks
    then err (plain "UNIQUE constraint failed: receive_tasks.id")
    else if any (λ (t : ReceiveTask). t.pending_block_hash == task.pending_block_hash)
        db.receive_tasks
    then err (plain "UNIQUE constraint failed: receive_tasks.pending_block_hash")
    else ok (record db { receive_tasks = db.receive_tasks ++ task ∷ [] }, task)

insert_oldest : ReceiveTask → List ReceiveTask → List ReceiveTask
insert_oldest t [] = t ∷ []
insert_oldest t (u ∷ us) =
    let rest = insert_oldest t us in if leb t.created_at u.created_at then t ∷ u ∷ us else u ∷ rest

-- ORDER BY created_at ASC, and `sort` by the same time.
unfoldable pub oldest_first : List ReceiveTask → List ReceiveTask
unfolding insert_oldest
oldest_first [] = []
oldest_first (t ∷ ts) = insert_oldest t (oldest_first ts)

unfoldable pub list_by_status : ReceiveTaskStatus → List ReceiveTask → List ReceiveTask
list_by_status status rows = oldest_first (filter (λ (t : ReceiveTask). t.status == status) rows)

-- `Partial<ReceiveTask>`: `none` is an absent field, and `some none` is a null.
pub record Patch : Type 0 where
  pub id : Option String
  pub account_address : Option String
  pub derivation_index : Option ℕ
  pub pending_block_hash : Option String
  pub amount_raw : Option ℕ
  pub status : Option ReceiveTaskStatus
  pub receive_block_hash : Option (Option String)
  pub created_at : Option ℕ
  pub published_at : Option (Option ℕ)
  pub confirmed_at : Option (Option ℕ)
  pub failed_at : Option (Option ℕ)
  pub fail_reason : Option (Option String)
  pub retry_count : Option ℕ

abbrev pub to_status : ReceiveTaskStatus → Patch
to_status status = record {
  id = none;
  account_address = none;
  derivation_index = none;
  pending_block_hash = none;
  amount_raw = none;
  status = some status;
  receive_block_hash = none;
  created_at = none;
  published_at = none;
  confirmed_at = none;
  failed_at = none;
  fail_reason = none;
  retry_count = none;
}

abbrev pub set_or : {A : Type 0} → Option A → A → A
set_or none a = a
set_or (some b) a = b

-- `{ ...existing, ...patch }`
abbrev pub patched : Patch → ReceiveTask → ReceiveTask
patched patch t = record {
  id = set_or patch.id t.id;
  account_address = set_or patch.account_address t.account_address;
  derivation_index = set_or patch.derivation_index t.derivation_index;
  pending_block_hash = set_or patch.pending_block_hash t.pending_block_hash;
  amount_raw = set_or patch.amount_raw t.amount_raw;
  status = set_or patch.status t.status;
  receive_block_hash = set_or patch.receive_block_hash t.receive_block_hash;
  created_at = set_or patch.created_at t.created_at;
  published_at = set_or patch.published_at t.published_at;
  confirmed_at = set_or patch.confirmed_at t.confirmed_at;
  failed_at = set_or patch.failed_at t.failed_at;
  fail_reason = set_or patch.fail_reason t.fail_reason;
  retry_count = set_or patch.retry_count t.retry_count;
}

-- UPDATE receive_tasks SET … WHERE id = ?, which sets every column but created_at.
abbrev pub replaced : String → ReceiveTask → ReceiveTask → ReceiveTask
replaced id new t = if t.id == id then record new { created_at = t.created_at } else t

-- The pending hash is unique: a patch that leaves it and the id as they are takes no other row's.
abbrev pub clashes : Patch → ReceiveTask → List ReceiveTask → Bool
clashes patch new rows =
    (is_some patch.id || is_some patch.pending_block_hash)
    && any (λ (t : ReceiveTask). t.id == new.id) rows
    && any
        (λ (t : ReceiveTask).
          not (t.id == new.id) && t.pending_block_hash == new.pending_block_hash)
        rows

-- The row that is changed is the one with the id of the patch, where it has one.
unfoldable pub update : String → Patch → Db → Result (Db × ReceiveTask)
update id patch db = elim (get id db.receive_tasks) [
  | none ↦ err (plain "ReceiveTask not found")
  | some existing ↦
      if clashes patch (patched patch existing) db.receive_tasks
      then err (plain "UNIQUE constraint failed: receive_tasks.pending_block_hash")
      else ok (
        record db {
          receive_tasks =
              map (replaced (patched patch existing).id (patched patch existing)) db.receive_tasks;
        },
        patched patch existing,
      )
]
