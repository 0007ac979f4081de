-- ===== src/Orchestrators/TaskStores.antt =====
-- `createInMemoryReceiveTaskStore` of packages/runtime/src/runtime.ts, and calls of the two stores of
-- receive tasks.
use rai_flow.Prelude.{
  String, Option, none, some, List, [], ◌∷◌, ◌==◌, string_eq, if◌then◌else◌, filter,
}
use rai_flow.Prelude.Dict
use rai_flow.Prelude.Dict.{Dict, values}
use rai_flow.Model.{ReceiveTask, ReceiveTaskStatus, task_status_eq}
use rai_flow.Model.Errors.{Result, ok, err, plain}
use rai_flow.Storage.Db.{Db}
use rai_flow.Orchestrators.Tasks.{Patch, patched, oldest_first}
use rai_flow.Orchestrators.Tasks as Tasks

pub record Memory : Type 0 where
  pub tasks : Dict String ReceiveTask
  pub by_pending_hash : Dict String String

-- `create`, of a task whose id and time are drawn.
unfoldable pub create : ReceiveTask → Memory → Result (Memory × ReceiveTask)
create task m = elim (Dict.get task.pending_block_hash m.by_pending_hash) [
  | some id ↦ err (plain "ReceiveTask for hash already exists")
  | none ↦ ok (
    record {
      tasks = Dict.set task.id task m.tasks;
      by_pending_hash = Dict.set task.pending_block_hash task.id m.by_pending_hash;
    },
    task,
  )
]

unfoldable pub get_by_pending_block_hash : String → Memory → Option ReceiveTask
get_by_pending_block_hash hash m = elim (Dict.get hash m.by_pending_hash) [
  | none ↦ none
  | some id ↦ if id == "" then none else Dict.get id m.tasks
]

unfoldable pub list_by_status : ReceiveTaskStatus → Memory → List ReceiveTask
list_by_status status m =
    oldest_first (filter (λ (t : ReceiveTask). t.status == status) (values m.tasks))

unfoldable pub update : String → Patch → Memory → Result (Memory × ReceiveTask)
update id patch m = elim (Dict.get id m.tasks) [
  | none ↦ err (plain "ReceiveTask not found")
  | some existing ↦
      ok (record m { tasks = Dict.set id (patched patch existing) m.tasks }, patched patch existing)
]

pub data Call : Type 0 where
  creates : ReceiveTask → Call
  updates : String → Patch → Call
  gets : String → Call
  finds : (pending_block_hash : String) → Call
  lists : ReceiveTaskStatus → Call

-- An error is told from an answer, not by its message.
pub data Reply : Type 0 where
  refused : Reply
  task_is : Option ReceiveTask → Reply
  tasks_are : List ReceiveTask → Reply

abbrev answer : {S : Type 0} → S → Result (S × ReceiveTask) → S × Reply
answer s (err e) = (s, refused)
answer s (ok (s', t)) = (s', task_is (some t))

unfoldable pub step : Call → Db → Db × Reply
step (creates t) db = answer db (Tasks.create t db)
step (updates id patch) db = answer db (Tasks.update id patch db)
step (gets id) db = (db, task_is (Tasks.get id db.receive_tasks))
step (finds hash) db = (db, task_is (Tasks.get_by_pending_block_hash hash db.receive_tasks))
step (lists status) db = (db, tasks_are (Tasks.list_by_status status db.receive_tasks))

unfoldable pub step_in_memory : Call → Memory → Memory × Reply
step_in_memory (creates t) m = answer m (create t m)
step_in_memory (updates id patch) m = answer m (update id patch m)
step_in_memory (gets id) m = (m, task_is (Dict.get id m.tasks))
step_in_memory (finds hash) m = (m, task_is (get_by_pending_block_hash hash m))
step_in_memory (lists status) m = (m, tasks_are (list_by_status status m))

unfoldable pub run : List Call → Db → Db × List Reply
unfolding step
run [] db = (db, [])
run (c ∷ cs) db =
    let (db1, reply) = step c db in let (db2, replies) = run cs db1 in (db2, reply ∷ replies)

unfoldable pub run_in_memory : List Call → Memory → Memory × List Reply
unfolding step_in_memory
run_in_memory [] m = (m, [])
run_in_memory (c ∷ cs) m =
    let (m1, reply) = step_in_memory c m in
    let (m2, replies) = run_in_memory cs m1 in (m2, reply ∷ replies)
