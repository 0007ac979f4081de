-- ===== src/Orchestrators/Tests.antt =====
-- Runs of the orchestrators on a small account, and witnesses.
use rai_flow.Prelude.{
  Option, ◌==◌, Bool, false, List, ℕ, ◌*◌, ◌≡◌, refl, String, true, none, some, [], ◌∷◌, ◌==◌,
  if◌then◌else◌, leb, arith,
}
use rai_flow.Model.{
  ReceiveTaskStatus, ReceiveTask, pending, failed, task_status_eq, Account, AccountType, Send,
  SendSource, queued, confirmed,
}
use rai_flow.Model.Errors.{ok}
use rai_flow.Storage.Db.{Db, empty_db, append_event}
use rai_flow.Accounts.Store as Accounts
use rai_flow.Intents.Store.{create_if_absent, run}
use rai_flow.Storage.Refunds.Sends.{update, list_by_status}
use rai_flow.Orchestrators.World.{
  mark, start, message, error_message, lease_lost, Answer, throws, gives, World, Outside, Broadcast,
  ◌>>=◌, pure, throw, catch, lift, read, ask, process_block, in_db, emit, create_intent,
  run_under_lease, includes,
}
use rai_flow.Orchestrators.Sends.{
  Source, work_rejection, resolve_source, prepare, intent_for, publish, publish_failed, old_block,
  accepted_hash, update_source, record_published, start_confirmation, settle_published,
  publish_under_lease,
}
use rai_flow.Orchestrators.Ticks.{
  Callback, guarded_publish, publish_send, start_all, publish_all, tick, Reach, begins, later,
  ticks, is_status, confirm_published_send,
}
use rai_flow.Orchestrators.Tasks as Tasks
use rai_flow.Orchestrators.Receives as Receives
use rai_flow.Orchestrators.TaskStores as TaskStores
use rai_flow.Orchestrators.TaskStores.{Memory, Call, creates, updates, finds, lists, run_in_memory}
use rai_flow.Orchestrators.TaskRefinement.{Implements, AreFresh, run-Implements}
use rai_flow.Orchestrators.Receives.{
  prepare_receive, publish_receive, rework_receive, work_again, record_received, receive_task,
  retry_later, receive_failed, process_task_under_lease, attempt, attempt_first, process_next,
  ReceiveReach, processes,
}
use rai_flow.Orchestrators.OneReceive.{one_receive_block}
use rai_flow.Orchestrators.Refusals.{Ended, process_task_under_lease-Ended}
use rai_flow.Orchestrators.Ledger.{IsHonest}
use rai_flow.Orchestrators.OneBlock.{one_block}
use rai_flow.Orchestrators.Published.{Ends, publish_under_lease_lem}
use rai_flow.Orchestrators.Confirming.{IsMonotone, confirm_published_send-ends}
use rai_flow.Orchestrators.Timely.{confirm_published_send-IsConfirmed}
use rai_flow.Storage.Refunds.Queue.{send_by_id}
use mathlib.Core.List.Memᴰ.{head, tail}

abbrev source_account : Account
source_account = record {
  id = "a";
  account_key = none;
  type = AccountType.managed;
  address = "nano_1";
  label = none;
  balance_raw = 10;
  pending_raw = 0;
  frontier = some "f";
  representative = none;
  derivation_index = some 5;
  created_at = 1;
  updated_at = 1;
}

abbrev send : Send
send = record {
  id = "s1";
  source = SendSource.account "a" "nano_1" (some 5);
  destination = "nano_2";
  amount_raw = 4;
  status = queued;
  block_hash = none;
  idempotency_key = "k";
  created_at = 60;
  published_at = none;
  confirmed_at = none;
}

abbrev db : Db
db = record empty_db { accounts = source_account ∷ []; sends = send ∷ [] }

-- The node answers the first block with a time-out; a block is its own hash, without its work.
abbrev node : ℕ → String → Answer String
node k json = if leb 8 k then gives json else throws (message "timeout")

abbrev outside : Outside
outside = record {
  acquires = λ k address. true;
  is_current = λ k. true;
  others = λ k. [];
  account_info = λ k address. gives (some (record { balance = 10; frontier = "f" }));
  process = node;
  block_info = λ k hash. gives (some (leb 20 k));
  sign = λ k request. gives (record { hash = "b"; contents = "b" });
  generate_work = λ k hash. gives "w";
  public_key = λ address. gives "p";
  parse = gives;
  with_work = λ block work. block;
  now = λ k. k * 10;
  uuid = λ k. if leb k 9 then "e1" else if leb k 20 then "e2" else "e3";
  job_uuid = λ event_id webhook_id. webhook_id;
}

outside-IsHonest : IsHonest outside (λ json. json)
outside-IsHonest = record {
  signs = λ k r s e. ground arith;
  works = λ json block work e. ground arith;
  others = λ k. tt;
}

abbrev quiet : Callback
quiet s d = ok (d, tt)

abbrev is_failed : Option ReceiveTask → Bool
is_failed none = false
is_failed (some t) = t.status == failed

-- The first tick ends in a time-out, the second publishes the same block again.
abbrev after_first : World
after_first = (tick outside (start db)).0

abbrev after_second : World
after_second = (tick outside after_first).0

run_of_two : Reach outside quiet after_second
run_of_two = later (later (begins db) ticks) ticks

abbrev block_of_send : Broadcast
block_of_send = record { owner_id = "s1"; block_json = "b" }

two_broadcasts : after_second.broadcasts ≡ block_of_send ∷ block_of_send ∷ []
unfolding tick start_all publish_all publish_send guarded_publish run_under_lease
    publish_under_lease intent_for prepare publish accepted_hash old_block publish_failed
    settle_published record_published start_confirmation update_source resolve_source ask
    process_block in_db emit create_intent ◌>>=◌ pure catch throw lift read list_by_status includes
    create_if_absent append_event update Accounts.update run
two_broadcasts = refl

one_block_example : ◌≡◌ {A = String} "b" "b"
one_block_example =
    one_block outside (λ json. json) quiet after_second block_of_send block_of_send outside-IsHonest
      run_of_two (rw two_broadcasts (head refl)) (rw two_broadcasts (tail (head refl))) refl

abbrev a_source : Source
a_source = record { address = "nano_1"; derivation_index = some 5; account = some source_account }

publish_under_lease_lem_example :
    Ends outside
      (λ json. json)
      outside-IsHonest
      send
      (start db).db.sends
      (publish_under_lease outside send a_source (start db)).0
publish_under_lease_lem_example =
    publish_under_lease_lem outside (λ json. json) outside-IsHonest send a_source (start db)
      (record { stored = tt; known = tt })

monotone : IsMonotone outside
monotone k = omega arith

confirm_published_send-ends_example :
    (confirm_published_send outside quiet "s1" "b" (start db)).1 ≡ gives (some tt)
confirm_published_send-ends_example =
    confirm_published_send-ends outside quiet "s1" "b" (start db) monotone

-- The node confirms the block from the poll at call 20 on.
confirm_published_send-IsConfirmed_example :
    is_status confirmed
      (send_by_id "s1" (confirm_published_send outside quiet "s1" "b" (start db)).0.db.sends)
    ≡ true
confirm_published_send-IsConfirmed_example =
    confirm_published_send-IsConfirmed outside quiet "s1" "b" 20 (start db) monotone
      (λ s d d' e. ground arith) refl refl (omega arith)

abbrev task : ReceiveTask
task = record {
  id = "t1";
  account_address = "nano_1";
  derivation_index = 5;
  pending_block_hash = "p1";
  amount_raw = 7;
  status = pending;
  receive_block_hash = none;
  created_at = 50;
  published_at = none;
  confirmed_at = none;
  failed_at = none;
  fail_reason = none;
  retry_count = 2;
}

abbrev task_db : Db
task_db = record empty_db { receive_tasks = task ∷ [] }

-- The first round ends in a time-out, the second publishes the same block again.
abbrev after_round : World
after_round = (process_next outside 1 (start task_db)).0

abbrev after_rounds : World
after_rounds = (process_next outside 1 after_round).0

two_rounds : ReceiveReach outside after_rounds
two_rounds = Receives.later (Receives.later (Receives.begins task_db) (processes 1)) (processes 1)

abbrev block_of_task : Broadcast
block_of_task = record { owner_id = "t1"; block_json = "b" }

two_receive_broadcasts : after_rounds.broadcasts ≡ block_of_task ∷ block_of_task ∷ []
unfolding process_next attempt_first attempt run_under_lease process_task_under_lease receive_task
    receive_failed record_received prepare_receive publish_receive rework_receive work_again
    old_block mark ask process_block in_db emit create_intent ◌>>=◌ pure catch throw lift read
    Tasks.list_by_status Tasks.oldest_first Tasks.update includes create_if_absent append_event run
two_receive_broadcasts = refl

one_receive_block_example : ◌≡◌ {A = String} "b" "b"
one_receive_block_example =
    one_receive_block outside (λ json. json) after_rounds block_of_task block_of_task
      outside-IsHonest two_rounds (rw two_receive_broadcasts (head refl))
      (rw two_receive_broadcasts (tail (head refl))) refl

plain_address : includes (error_message (lease_lost task.account_address)) work_rejection ≡ false
unfolding includes
plain_address = refl

process_task_under_lease-Ended_example :
    Ended outside task task
      (start task_db)
      (process_task_under_lease outside task (start task_db)).0
process_task_under_lease-Ended_example =
    process_task_under_lease-Ended outside task task (start task_db) plain_address refl

-- The task has failed twice before: where the account has no frontier to read, the third attempt is
-- the last one.
abbrev no_node : Outside
no_node = record outside { account_info = λ k address. throws (message "timeout") }

third_attempt_fails :
    is_failed
      (Tasks.get "t1" (process_task_under_lease no_node task (start task_db)).0.db.receive_tasks)
    ≡ true
unfolding process_task_under_lease receive_task receive_failed retry_later prepare_receive mark ask
    in_db emit ◌>>=◌ pure catch throw lift read Tasks.update append_event run
third_attempt_fails = refl

abbrev other_task : ReceiveTask
other_task = record task { id = "t2" }

abbrev no_tasks : Memory
no_tasks = record { tasks = []; by_pending_hash = [] }

-- The second task is refused, since it has the pending hash of the first.
abbrev task_calls : List Call
task_calls =
    creates task
    ∷ creates other_task
    ∷ updates "t1" (Tasks.to_status ReceiveTaskStatus.processing)
    ∷ finds "p1"
    ∷ lists pending
    ∷ []

task_calls-AreFresh : AreFresh task_calls empty_db
unfolding TaskStores.step Tasks.create
task_calls-AreFresh = ((refl, refl), ((refl, refl), ((refl, refl, refl), (tt, (tt, tt)))))

run-Implements_example :
    ((TaskStores.run task_calls empty_db).1 ≡ (run_in_memory task_calls no_tasks).1)
    × Implements (TaskStores.run task_calls empty_db).0 (run_in_memory task_calls no_tasks).0
run-Implements_example =
    run-Implements task_calls empty_db no_tasks
      (record { tasks = refl; hashes = refl; distinct = tt; named = refl }) task_calls-AreFresh
