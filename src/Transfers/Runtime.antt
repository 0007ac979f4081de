-- ===== src/Transfers/Runtime.antt =====
-- `Runtime.queueSend` and `Runtime.queueRefund` of packages/runtime/src/runtime.ts, over the SQLite
-- stores. A request comes with the amount that its text stands for; an amount that is no number is
-- refused like zero.
use Prim.Native.String.{◌++◌}
use rai_flow.Prelude.{
  ℕ, String, Bool, false, not, ◌&&◌, ◌||◌, Option, none, some, List, ◌==◌, string_eq, nat_eq,
  if◌then◌else◌, find,
}
use rai_flow.Model.{
  Account, AccountType, account_type_eq, Deposit, Invoice, Refund, Send, SendSource, SendStatus,
  Event, EventData, send_data, refund_data,
}
use rai_flow.Model.Errors.{
  Error, coded, plain, not_found, conflict, bad_request, Result, ok, err, ◌>>=◌,
}
use rai_flow.Storage.Db.{Db, append_event}
use rai_flow.Storage.Refunds.Queue.{send_by_id, deposit_by_id, QueueResult, queue}
use rai_flow.Storage.Refunds.Sends.{create, by_idempotency_key}
use rai_flow.Idempotency.Store as Keys
use rai_flow.Invoices.Store as Invoices
use rai_flow.Accounts.Store as Accounts
use rai_flow.Orchestrators.World.{includes}

-- What a call draws: the time, the ids, and the ids of the webhook jobs.
pub record Draws : Type 0 where
  pub now : ℕ
  pub send_id : String
  pub refund_id : String
  pub event_id : String
  pub job_uuid : String → String → String

pub data Mode : Type 0 where
  custodial non_custodial : Mode

pub record SendRequest : Type 0 where
  pub account_id : String
  pub destination : String
  pub amount_raw : ℕ
  pub idempotency_key : String

pub record RefundRequest : Type 0 where
  pub deposit_id : String
  pub destination : String
  pub amount_raw : ℕ
  pub idempotency_key : String

-- `assertSendReplayPayload`
unfoldable pub same_request : Send → SendRequest → Bool
same_request existing request = elim existing.source [
  | SendSource.invoice invoice_id address index ↦ false
  | SendSource.account account_id address index ↦
      account_id == request.account_id
      && existing.destination == request.destination
      && existing.amount_raw == request.amount_raw
]

unfoldable pub replayed_send : Db → Send → SendRequest → Result (Db × Send)
unfolding same_request
replayed_send db existing request =
    if same_request existing request
    then ok (db, existing)
    else err (coded conflict "Idempotency key was already used with a different send request")

-- The send that an earlier request with the key has queued.
unfoldable pub earlier_send : Db → String → Option Send
earlier_send db key = elim (by_idempotency_key key db.sends) [
  | some existing ↦ some existing
  | none ↦ elim (Keys.get "send.queue" key db.idempotency_keys) [
    | none ↦ none
    | some replay ↦ send_by_id replay.resource_id db.sends
  ]
]

abbrev pub new_send : Draws → SendSource → String → ℕ → String → Send
new_send draws source destination amount_raw idempotency_key = record {
  id = draws.send_id;
  source = source;
  destination = destination;
  amount_raw = amount_raw;
  status = SendStatus.queued;
  block_hash = none;
  idempotency_key = idempotency_key;
  created_at = draws.now;
  published_at = none;
  confirmed_at = none;
}

abbrev pub queued_event : Draws → Send → EventData → Event
queued_event draws send payload = record {
  sequence = none;
  id = draws.event_id;
  type = "send.queued";
  timestamp = draws.now;
  payload = payload;
  resource_id = send.id;
  resource_type = "send";
}

-- Remembering the key and announcing the send.
unfoldable pub announce : Draws → String → String → String → String → Event → Db → Db
announce draws scope key type id event db =
    (append_event (draws.job_uuid event.id) event (record db {
      idempotency_keys = (Keys.put scope key type id draws.now db.idempotency_keys).0;
    })).0

unfoldable pub enqueue_send : Draws → Account → SendRequest → Db → Result (Db × Send)
unfolding announce replayed_send
enqueue_send draws account request db = elim (create send db) [
  | err failure ↦ elim (by_idempotency_key request.idempotency_key db.sends) [
    | none ↦ err failure
    | some concurrent ↦ replayed_send db concurrent request
  ]
  | ok (db', created) ↦ ok (
    announce draws "send.queue" request.idempotency_key "send" send.id
        (queued_event draws send (send_data send)) db',
    send,
  )
]
  where
    send : Send
    send =
        new_send draws (SendSource.account account.id account.address account.derivation_index)
          request.destination request.amount_raw request.idempotency_key

-- The checks of a request, and the account that it names.
unfoldable pub send_account : Mode → (String → Bool) → SendRequest → List Account → Result Account
send_account non_custodial valid_address request accounts =
    err (coded bad_request "Sends are not available in non-custodial mode")
send_account custodial valid_address request accounts =
    elim (Accounts.get request.account_id accounts) [
      | none ↦ err (coded not_found "Account")
      | some account ↦
          if not (account.type == AccountType.managed)
          then err (coded conflict "Only managed accounts can queue sends")
          else if not (valid_address request.destination)
          then err (coded bad_request "Invalid destination address")
          else if request.amount_raw == 0
          then err (coded bad_request "amountRaw must be a positive numeric string")
          else ok account
    ]

-- `valid_address` is what `NanoAddress.parse` takes.
unfoldable pub queue_send :
    Mode → (valid_address : String → Bool) → Draws → SendRequest → Db → Result (Db × Send)
unfolding send_account
queue_send mode valid_address draws request db = do
  account ← send_account mode valid_address request db.accounts
  elim (earlier_send db request.idempotency_key) [
    | some existing ↦ replayed_send db existing request
    | none ↦ enqueue_send draws account request db
  ]

-- `depositStore.get(id) ?? depositStore.getByBlockHash(id)`
unfoldable pub find_deposit : String → List Deposit → Option Deposit
find_deposit id deposits = elim (deposit_by_id id deposits) [
  | some d ↦ some d
  | none ↦ find (λ (d : Deposit). d.block_hash == id) deposits
]

abbrev no_invoice_source : Error
no_invoice_source = coded conflict "The deposit invoice has no available custodial send source"

abbrev no_account_source : Error
no_account_source = coded conflict "The deposit recipient is not a custodial managed account"

unfoldable pub invoice_source : Option Invoice → Result SendSource
invoice_source none = err no_invoice_source
invoice_source (some i) = elim i.derivation_index [
  | none ↦ err no_invoice_source
  | some index ↦ ok (SendSource.invoice i.id i.pay_address index)
]

unfoldable pub account_source : Option Account → Result SendSource
account_source none = err no_account_source
account_source (some a) = elim a.derivation_index [
  | none ↦ err no_account_source
  | some index ↦
      if a.type == AccountType.managed
      then ok (SendSource.account a.id a.address (some index))
      else err no_account_source
]

-- Where the money of a deposit is sent from.
unfoldable pub refund_source : Deposit → Db → Result SendSource
unfolding invoice_source account_source
refund_source deposit db = elim (Invoices.given deposit.invoice_id) [
  | some id ↦ invoice_source (Invoices.get id db.invoices)
  | none ↦ account_source (Accounts.get_by_address deposit.recipient_account db.accounts)
]

abbrev pub refund_send : Draws → Deposit → SendSource → RefundRequest → Send
refund_send draws deposit source request =
    new_send draws source request.destination request.amount_raw
      ("refund:" ++ deposit.id ++ ":" ++ request.idempotency_key)

abbrev pub new_refund : Draws → Deposit → RefundRequest → Refund
new_refund draws deposit request = record {
  id = draws.refund_id;
  deposit_id = deposit.id;
  invoice_id = deposit.invoice_id;
  send_id = draws.send_id;
  destination = request.destination;
  amount_raw = request.amount_raw;
  status = SendStatus.queued;
  idempotency_key = request.idempotency_key;
  created_at = draws.now;
  published_at = none;
  confirmed_at = none;
}

-- The errors of the store that are answered as a conflict. The messages of the store that the
-- pattern can match are in lower case at that place.
unfoldable pub as_conflict : Error → Error
as_conflict (coded code message) = coded code message
as_conflict (plain message) =
    if includes message "exceeds the unrefunded" || includes message "reused with different"
    then coded conflict message
    else plain message

unfoldable pub finish_refund :
    Draws → Deposit → RefundRequest → Result (Db × QueueResult) → Result (Db × Refund)
unfolding announce as_conflict
finish_refund draws deposit request (err failure) = err (as_conflict failure)
finish_refund draws deposit request (ok (db, r)) =
    if r.created
    then ok (
      announce draws "refund.create" (deposit.id ++ ":" ++ request.idempotency_key) "refund"
          r.refund.id (queued_event draws r.send (refund_data r.send r.refund)) db,
      r.refund,
    )
    else ok (db, r.refund)

-- The checks of a refund, and the deposit that it names; `is_blank` is `!key.trim()`.
unfoldable pub refund_deposit :
    Mode → (String → Bool) → (String → Bool) → RefundRequest → List Deposit → Result Deposit
unfolding find_deposit
refund_deposit non_custodial valid_address is_blank request deposits =
    err (coded bad_request "Refunds are not available in non-custodial mode.")
refund_deposit custodial valid_address is_blank request deposits =
    elim (find_deposit request.deposit_id deposits) [
      | none ↦ err (coded not_found "Deposit")
      | some deposit ↦
          if not (valid_address request.destination)
          then err (coded bad_request "destination must be a valid Nano address")
          else if request.amount_raw == 0
          then err (coded bad_request "amountRaw must be a positive numeric string")
          else if is_blank request.idempotency_key
          then err (coded bad_request "Idempotency-Key is required")
          else ok deposit
    ]

unfoldable pub queue_refund :
    Mode
    → (valid_address is_blank : String → Bool) → Draws
    → RefundRequest
    → Db
    → Result (Db × Refund)
unfolding refund_deposit
queue_refund mode valid_address is_blank draws request db = do
  deposit ← refund_deposit mode valid_address is_blank request db.deposits
  source ← refund_source deposit db
  finish_refund draws deposit request (
      queue db deposit (new_refund draws deposit request)
        (refund_send draws deposit source request))
