-- ===== src/Storage/Refunds/Tests.antt =====
-- A deposit of ten, refunded by four under one key and asked for again.
use rai_flow.Prelude.{String, ◌≡◌, ◌≢◌, refl, none, some, [], ◌∷◌, ◌⊎◌, true, false, arith}
use rai_flow.Model.{Deposit, Refund, AccountType, Send, SendSource, SendStatus, queued, unmatched}
use rai_flow.Model.Errors.{ok, err, plain}
use rai_flow.Storage.Db.{Db, empty_db}
use rai_flow.Storage.Refunds.Queue.{
  QueueResult, queue, reserve, get_result, well_matched, insert_send, insert_refund, refunded,
}
use rai_flow.Storage.Refunds.Reserve.{IsReserved, queue-IsReserved}
use rai_flow.Storage.Refunds.Sends.{Patch, patched, update, update-IsReserved}
use rai_flow.Storage.Refunds.Replay.{queue-queue}

abbrev deposit : Deposit
deposit = record {
  id = "d";
  block_hash = "AB";
  recipient_account = "nano_1";
  sender_account = some "nano_2";
  amount_raw = 10;
  invoice_id = none;
  disposition = unmatched;
  confirmed_at = 40;
}

abbrev before : Db
before = record empty_db {
  deposits = deposit ∷ [];
  accounts =
      record {
        id = "a";
        account_key = none;
        type = AccountType.managed;
        address = "nano_1";
        label = none;
        balance_raw = 10;
        pending_raw = 0;
        frontier = none;
        representative = none;
        derivation_index = some 5;
        created_at = 1;
        updated_at = 1;
      }
      ∷ [];
}

abbrev refund : String → String → Refund
refund id send_id = record {
  id = id;
  deposit_id = "d";
  invoice_id = none;
  send_id = send_id;
  destination = "nano_2";
  amount_raw = 4;
  status = queued;
  idempotency_key = "k";
  created_at = 60;
  published_at = none;
  confirmed_at = none;
}

abbrev send : String → Send
send id = record {
  id = id;
  source = SendSource.account "a" "nano_1" (some 5);
  destination = "nano_2";
  amount_raw = 4;
  status = queued;
  block_hash = none;
  idempotency_key = id;
  created_at = 60;
  published_at = none;
  confirmed_at = none;
}

abbrev result : QueueResult
result = record { refund = refund "r1" "s1"; send = send "s1"; created = true }

abbrev after : Db
after = record before {
  sends = send "s1" ∷ [];
  refunds =
      record {
        id = "r1";
        deposit_id = "d";
        invoice_id = none;
        send_id = "s1";
        destination = "nano_2";
        amount_raw = 4;
        idempotency_key = "k";
        created_at = 60;
      }
      ∷ [];
}

ran : queue before deposit (refund "r1" "s1") (send "s1") ≡ ok (after, result)
unfolding queue reserve get_result well_matched insert_send insert_refund refunded
ran = refl

fits : well_matched deposit (refund "r2" "s2") (send "s2") ≡ true
unfolding well_matched
fits = refl

before-IsReserved : IsReserved before
before-IsReserved = record { linked = tt; within = λ id d found. omega arith }

queue-IsReserved_example : IsReserved after
queue-IsReserved_example =
    queue-IsReserved before after deposit (refund "r1" "s1") (send "s1") result before-IsReserved
      ran

queue-queue_example :
    (((refund "r2" "s2").amount_raw ≡ (refund "r1" "s1").amount_raw)
      → ((refund "r2" "s2").destination ≡ (refund "r1" "s1").destination)
      → queue after deposit (refund "r2" "s2") (send "s2")
        ≡ ok (after, record result { created = false }))
    × (((refund "r2" "s2").amount_raw ≢ (refund "r1" "s1").amount_raw)
          ⊎ ((refund "r2" "s2").destination ≢ (refund "r1" "s1").destination)
        → queue after deposit (refund "r2" "s2") (send "s2")
          ≡ err (plain "Refund idempotency key was reused with different parameters"))
queue-queue_example =
    queue-queue before after deposit (refund "r1" "s1") (refund "r2" "s2") (send "s1") (send "s2")
      result ran fits refl

abbrev publish : Patch
publish = record {
  status = SendStatus.published;
  block_hash = some "B1";
  published_at = some 70;
  confirmed_at = none;
}

update-IsReserved_example :
    (db' : Db) × (update "s1" publish after ≡ ok (db', patched publish (send "s1")))
    × IsReserved db'
update-IsReserved_example =
    update-IsReserved "s1" publish after (send "s1") queue-IsReserved_example refl (λ ended. cc)
