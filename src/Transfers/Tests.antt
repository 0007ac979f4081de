-- ===== src/Transfers/Tests.antt =====
-- Requests on a small store, and witnesses.
use rai_flow.Prelude.{
  ℕ, ◌≡◌, refl, String, Bool, true, none, some, [], ◌∷◌, ◌==◌, string_eq, nat_eq, if◌then◌else◌,
  arith,
}
use rai_flow.Model.{Account, AccountType, Deposit, DepositDisposition, Send, SendSource}
use rai_flow.Model.Errors.{Result, ok, err, coded, conflict}
use rai_flow.Storage.Db.{Db, empty_db, append_event}
use rai_flow.Storage.Refunds.Queue.{
  queue, reserve, get_result, well_matched, insert_send, insert_refund, refunded,
}
use rai_flow.Storage.Refunds.Reserve.{IsReserved}
use rai_flow.Storage.Refunds.Sends.{create}
use rai_flow.Idempotency.Store as Keys
use rai_flow.Transfers.Runtime.{
  Draws, custodial, SendRequest, RefundRequest, same_request, new_send, new_refund, announce,
  enqueue_send, send_account, earlier_send, queue_send, find_deposit, refund_deposit, refund_source,
  account_source, finish_refund, queue_refund,
}
use rai_flow.Transfers.Replays.{queue_send-queue_send}
use rai_flow.Transfers.Refunds.{queue_refund-IsReserved}

abbrev draws : ℕ → Draws
draws n = record {
  now = n;
  send_id = if n == 1 then "s1" else "s2";
  refund_id = if n == 1 then "r1" else "r2";
  event_id = if n == 1 then "e1" else "e2";
  job_uuid = λ event_id webhook_id. webhook_id;
}

abbrev source_account : Account
source_account = record {
  id = "a";
  account_key = none;
  type = AccountType.managed;
  address = "nano_1";
  label = none;
  balance_raw = 10;
  pending_raw = 0;
  frontier = none;
  representative = none;
  derivation_index = some 5;
  created_at = 1;
  updated_at = 1;
}

abbrev deposit : Deposit
deposit = record {
  id = "d";
  block_hash = "B";
  recipient_account = "nano_1";
  sender_account = none;
  amount_raw = 10;
  invoice_id = none;
  disposition = DepositDisposition.unmatched;
  confirmed_at = 0;
}

abbrev before : Db
before = record empty_db { accounts = source_account ∷ []; deposits = deposit ∷ [] }

abbrev request : ℕ → SendRequest
request amount = record {
  account_id = "a";
  destination = "nano_2";
  amount_raw = amount;
  idempotency_key = "k";
}

abbrev any_address : String → Bool
any_address address = true

abbrev db_of : {A : Type 0} → Result (Db × A) → Db
db_of (ok (db, a)) = db
db_of (err e) = empty_db

abbrev send : Send
send = new_send (draws 1) (SendSource.account "a" "nano_1" (some 5)) "nano_2" 4 "k"

abbrev after : Db
after = db_of (queue_send custodial any_address (draws 1) (request 4) before)

queued_once : queue_send custodial any_address (draws 1) (request 4) before ≡ ok (after, send)
unfolding queue_send send_account earlier_send enqueue_send create insert_send announce append_event
    Keys.get
queued_once = refl

request_allowed : send_account custodial any_address (request 9) before.accounts ≡ ok source_account
unfolding send_account
request_allowed = refl

-- The same key for another amount.
queue_send-queue_send_example : queue_send custodial any_address (draws 2) (request 9) after ≡ (
    if same_request send (request 9)
    then ok (after, send)
    else err (coded conflict "Idempotency key was already used with a different send request"))
queue_send-queue_send_example =
    queue_send-queue_send custodial any_address (draws 1) (draws 2) (request 4) (request 9) before
      after send source_account queued_once refl request_allowed

abbrev refund_request : RefundRequest
refund_request = record {
  deposit_id = "d";
  destination = "nano_2";
  amount_raw = 4;
  idempotency_key = "k";
}

abbrev is_blank : String → Bool
is_blank key = key == ""

abbrev refunded_db : Db
refunded_db = db_of (queue_refund custodial any_address is_blank (draws 1) refund_request before)

refund_queued :
    queue_refund custodial any_address is_blank (draws 1) refund_request before
    ≡ ok (refunded_db, new_refund (draws 1) deposit refund_request)
unfolding queue_refund refund_deposit find_deposit refund_source account_source finish_refund queue
    reserve get_result well_matched insert_send insert_refund refunded announce append_event
refund_queued = refl

before-IsReserved : IsReserved before
before-IsReserved = record { linked = tt; within = λ id d found. omega arith }

queue_refund-IsReserved_example : IsReserved refunded_db
queue_refund-IsReserved_example =
    queue_refund-IsReserved custodial any_address is_blank (draws 1) refund_request before
      refunded_db (new_refund (draws 1) deposit refund_request) before-IsReserved refund_queued
