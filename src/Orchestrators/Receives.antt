-- ===== src/Orchestrators/Receives.antt =====
-- `ReceiveOrchestrator` of packages/runtime/src/receive-orchestrator.ts.
use rai_flow.Prelude.{
  ℕ, suc, ◌+◌, String, Bool, true, false, not, ◌&&◌, Option, none, some, List, [], ◌∷◌, ◌++◌, ◌==◌,
  string_eq, if◌then◌else◌, ltb, leb, find, holds, is_some, map,
}
use rai_flow.Model.{Event, ReceiveTask, ReceiveTaskStatus, receive_data}
use rai_flow.Storage.Db.{Db}
use rai_flow.Intents.Store.{Intent}
use rai_flow.Intents.Store as Intents
use rai_flow.Orchestrators.World.{
  Failure, message, Answer, gives, World, start, Marks, Run, ◌>>=◌, pure, throw, catch,
  error_message, includes, balance_of, frontier_of, Outside, clock, ask, assert_current, lift,
  process_block, read, mark, in_db, emit, create_intent, update_work, run_under_lease,
}
use rai_flow.Orchestrators.Tasks as Tasks
use rai_flow.Orchestrators.Sends.{old_block, is_lease_lost, work_rejection}

-- An entry of `accountsReceivable`, after `normalizeReceivables`.
pub record Receivable : Type 0 where
  pub hash : String
  pub amount : ℕ

unfoldable pub new_task : Outside → World → String → ℕ → Receivable → ReceiveTask
new_task o w address derivation_index entry = record {
  id = o.uuid w.calls;
  account_address = address;
  derivation_index = derivation_index;
  pending_block_hash = entry.hash;
  amount_raw = entry.amount;
  status = ReceiveTaskStatus.pending;
  receive_block_hash = none;
  created_at = clock o w;
  published_at = none;
  confirmed_at = none;
  failed_at = none;
  fail_reason = none;
  retry_count = 0;
}

-- The loop of `_enqueueReceivables`; drawing the id is a call.
unfoldable pub enqueue_all : Outside → (minimum : ℕ) → String → ℕ → List Receivable → Run (Unit {0})
unfolding new_task
enqueue_all o minimum address derivation_index [] = pure tt
enqueue_all o minimum address derivation_index (e ∷ es) = do
  done ←
      if ltb e.amount minimum
      then pure tt
      else catch
          (do
            drawn ← ask o (λ k. gives tt)
            here ← read (λ w. w)
            task ← in_db (Tasks.create (new_task o here address derivation_index e))
            pure tt)
          (λ failure. pure tt)
  enqueue_all o minimum address derivation_index es

-- `receivable` is what the node answers, or its failure.
unfoldable pub enqueue_receivables :
    Outside → (minimum : ℕ) → (receivable : Answer (List Receivable)) → String → ℕ → Run (Unit {0})
enqueue_receivables o minimum receivable address derivation_index =
    catch
      (do entries ← ask o (λ k. receivable); enqueue_all o minimum address derivation_index entries)
      (λ failure. pure tt)

-- What the work of a receive is computed for.
abbrev pub work_subject : Outside → String → String → Answer String
work_subject o address frontier = if frontier == "" then o.public_key address else gives frontier

abbrev pub task_ids : Db → List String
task_ids db = map (λ (t : ReceiveTask). t.id) db.receive_tasks

unfoldable pub prepare_receive : Outside → ReceiveTask → Run Intent
prepare_receive o task = do
  info ← ask o (λ k. o.account_info k task.account_address)
  let frontier = frontier_of "" info
  signed ← ask o (λ k. o.sign k (record {
    address = task.account_address;
    subject = task.pending_block_hash;
    resulting_balance_raw = balance_of info + task.amount_raw;
    frontier = frontier;
    derivation_index = some task.derivation_index;
  }))
  block ← lift (o.parse signed.contents)
  subject ← lift (work_subject o task.account_address frontier)
  work ← ask o (λ k. o.generate_work k subject)
  current ← assert_current o task.account_address
  now ← read (clock o)
  create_intent task_ids (record {
    owner_id = task.id;
    block_hash = signed.hash;
    block_json = o.with_work block work;
    frontier = frontier;
    resulting_balance_raw = balance_of info + task.amount_raw;
    created_at = now;
  })

abbrev pub set_started : Marks → Marks
set_started m = record m { broadcast_started = true }

abbrev pub set_rejected : Marks → Marks
set_rejected m = record m { repeated_work_rejection = true }

-- `publish`
unfoldable pub publish_receive : Outside → ReceiveTask → Intent → String → Run String
publish_receive o task intent block_json = do
  current ← assert_current o task.account_address
  started ← mark set_started
  catch
      (do
        hash ← process_block o task.id block_json
        if hash == intent.block_hash
            then pure hash
            else throw (message "Published receive hash did not match the saved intent"))
      (old_block o intent)

unfoldable pub note_rejection : Failure → Run String
note_rejection failure =
    if includes (error_message failure) work_rejection
    then (do marked ← mark set_rejected; throw failure)
    else throw failure

-- New work, and the block once more; `none` where the stored intent is another one.
unfoldable pub work_again : Outside → ReceiveTask → Intent → Run (Option String)
work_again o task intent = do
  block ← lift (o.parse intent.block_json)
  subject ← lift (work_subject o task.account_address intent.frontier)
  work ← ask o (λ k. o.generate_work k subject)
  current ← assert_current o task.account_address
  changed ← update_work task.id intent.block_hash (o.with_work block work)
  if changed
      then (do
        hash ← catch (publish_receive o task intent (o.with_work block work)) note_rejection
        pure (some hash))
      else pure none

-- What follows a first rejection.
unfoldable pub rework_receive : Outside → ReceiveTask → Intent → Failure → Run (Option String)
rework_receive o task intent failure =
    if is_lease_lost failure
    then throw failure
    else if not (includes (error_message failure) work_rejection)
    then throw failure
    else work_again o task intent

abbrev pub receive_event : Outside → World → String → String → ReceiveTask → Event
receive_event o w type resource_type task = record {
  sequence = none;
  id = o.uuid w.calls;
  type = type;
  timestamp = clock o w;
  payload = receive_data task;
  resource_id = task.id;
  resource_type = resource_type;
}

abbrev pub published_patch : ℕ → String → Tasks.Patch
published_patch now hash = record (Tasks.to_status ReceiveTaskStatus.published) {
  receive_block_hash = some (some hash);
  published_at = some (some now);
}

unfoldable pub record_received : Outside → ReceiveTask → String → Run (Unit {0})
record_received o task hash = do
  current ← assert_current o task.account_address
  here ← read (λ w. w)
  updated ← in_db (
      Tasks.update task.id (record (Tasks.to_status ReceiveTaskStatus.published) {
        receive_block_hash = some (some hash);
        published_at = some (some (clock o here));
      }))
  emit o (
      receive_event o here "receive.published" "account"
        (record task { status = ReceiveTaskStatus.published; receive_block_hash = some hash }))

-- The body of the outer `try` of `processTaskUnderLease`.
unfoldable pub receive_task : Outside → ReceiveTask → Run (Unit {0})
receive_task o task = do
  stored ← read (λ w. Intents.get task.id w.intents)
  intent ← elim stored [ none ↦ prepare_receive o task | some i ↦ pure i ]
  accepted ←
      catch (do hash ← publish_receive o task intent intent.block_json; pure (some hash))
        (rework_receive o task intent)
  elim accepted [ none ↦ pure tt | some hash ↦ record_received o task hash ]

abbrev pub max_attempts : ℕ
max_attempts = 3

abbrev pub failed_patch : ℕ → String → ℕ → Tasks.Patch
failed_patch now reason retry_count = record (Tasks.to_status ReceiveTaskStatus.failed) {
  failed_at = some (some now);
  fail_reason = some (some reason);
  retry_count = some retry_count;
}

abbrev pub again_patch : ℕ → Tasks.Patch
again_patch retry_count = record (Tasks.to_status ReceiveTaskStatus.pending) {
  retry_count = some retry_count;
}

-- Counting an attempt that has not worked.
unfoldable pub retry_later : Outside → ReceiveTask → Failure → Run (Unit {0})
retry_later o task failure = do
  here ← read (λ w. w)
  if leb max_attempts (suc task.retry_count)
      then (do
        failed ← in_db (
            Tasks.update task.id
              (failed_patch (clock o here) (error_message failure) (suc task.retry_count)))
        catch
            (emit o (
              receive_event o here "receive.failed" "receive_task" (record task {
                retry_count = suc task.retry_count;
                status = ReceiveTaskStatus.failed;
              })))
            (λ swallowed. pure tt))
      else (do updated ← in_db (Tasks.update task.id (again_patch (suc task.retry_count))); pure tt)

unfoldable pub receive_failed : Outside → ReceiveTask → Failure → Run (Unit {0})
receive_failed o task failure = if is_lease_lost failure then throw failure else (do
  current ← assert_current o task.account_address
  marks ← read (λ w. w.marks)
  if marks.broadcast_started && not marks.repeated_work_rejection
      then pure tt
      else retry_later o task failure)

abbrev pub cleared : Marks → Marks
cleared m = record m { broadcast_started = false; repeated_work_rejection = false }

unfoldable pub process_task_under_lease : Outside → ReceiveTask → Run (Unit {0})
process_task_under_lease o task = do
  begun ← mark cleared
  catch (receive_task o task) (receive_failed o task)

abbrev pub set_acquired : Bool → Marks → Marks
set_acquired b m = record m { acquired = b }

-- One round of the loop of `processNext`: true where it returns.
unfoldable pub attempt : Outside → ReceiveTask → Run Bool
attempt o task = do
  begun ← mark (set_acquired false)
  done ←
      catch
        (do
          result ← run_under_lease o task.account_address (do
            got ← mark (set_acquired true)
            updated ← in_db (Tasks.update task.id (Tasks.to_status ReceiveTaskStatus.processing))
            process_task_under_lease o task)
          pure tt)
        (λ failure. if is_lease_lost failure then pure tt else throw failure)
  read (λ w. w.marks.acquired)

-- A task below the minimum waits, unless a block of it is stored.
unfoldable pub attempt_first : Outside → (minimum : ℕ) → List ReceiveTask → Run (Unit {0})
attempt_first o minimum [] = pure tt
attempt_first o minimum (t ∷ ts) = do
  stored ← read (λ w. is_some (Intents.get t.id w.intents))
  if ltb t.amount_raw minimum && not stored
      then attempt_first o minimum ts
      else (do acquired ← attempt o t; if acquired then pure tt else attempt_first o minimum ts)

unfoldable pub process_next : Outside → (minimum : ℕ) → Run (Unit {0})
process_next o minimum = do
  pending ← read (λ w. Tasks.list_by_status ReceiveTaskStatus.pending w.db.receive_tasks)
  processing ← read (λ w. Tasks.list_by_status ReceiveTaskStatus.processing w.db.receive_tasks)
  attempt_first o minimum (Tasks.oldest_first (processing ++ pending))

unfoldable pub handle_confirmed_receive_block : Outside → String → Run (Unit {0})
handle_confirmed_receive_block o hash = do
  published ← read (λ w. Tasks.list_by_status ReceiveTaskStatus.published w.db.receive_tasks)
  elim (find (λ (t : ReceiveTask). holds t.receive_block_hash hash) published) [
    | none ↦ pure tt
    | some task ↦ do
      here ← read (λ w. w)
      updated ← in_db (
          Tasks.update task.id (record (Tasks.to_status ReceiveTaskStatus.confirmed) {
            confirmed_at = some (some (clock o here));
          }))
      emit o (receive_event o here "receive.confirmed" "account" updated)
  ]

-- What may happen next: a round of `processNext`, new receivables, a confirmed block, or a change of
-- the other tables by the rest of the program.
pub data ReceiveStep (o : Outside) (w : World) : World → Type 0 where
  processes : (minimum : ℕ) → ReceiveStep o w (process_next o minimum w).0
  enqueues :
      (minimum : ℕ) (receivable : Answer (List Receivable)) (address : String)
      (derivation_index : ℕ)
      → ReceiveStep o w (enqueue_receivables o minimum receivable address derivation_index w).0
  confirms : (hash : String) → ReceiveStep o w (handle_confirmed_receive_block o hash w).0
  elsewhere : (db : Db) → ReceiveStep o w (record w { db = db })

pub data ReceiveReach (o : Outside) : World → Type 0 where
  begins : (db : Db) → ReceiveReach o (start db)
  later : {w w' : World} → ReceiveReach o w → ReceiveStep o w w' → ReceiveReach o w'
