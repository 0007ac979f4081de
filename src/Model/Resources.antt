-- ===== src/Model/Resources.antt =====
-- The resources of packages/model/src/index.ts. `T | null` is `Option T`.
use rai_flow.Prelude.{ℕ, String, Option, List, Bool}
use rai_flow.Model.Status.{
  InvoiceStatus, PaymentStatus, AccountType, SendStatus, CompletionPolicy, DepositDisposition,
  ReceiveTaskStatus,
}

pub record Invoice : Type 0 where
  pub id : String
  pub account_key : String
  pub invoice_key : Option String
  pub status : InvoiceStatus
  pub pay_address : String
  pub expected_amount_raw : ℕ
  pub received_amount_raw : ℕ
  pub memo : Option String
  pub metadata : Option (List (String × String))
  pub idempotency_key : Option String
  pub expires_at : Option ℕ
  pub completed_at : Option ℕ
  pub canceled_at : Option ℕ
  pub created_at : ℕ
  pub updated_at : ℕ
  pub completion_policy : CompletionPolicy
  pub derivation_index : Option ℕ

pub record InvoiceAccount : Type 0 where
  pub account_key : String
  pub invoice_key : Option String
  pub derivation_index : ℕ
  pub address : String
  pub created_at : ℕ

pub record Payment : Type 0 where
  pub id : String
  pub invoice_id : String
  pub status : PaymentStatus
  pub block_hash : String
  pub sender_address : Option String
  pub amount_raw : ℕ
  pub confirmed_at : Option ℕ
  pub detected_at : ℕ

pub record Deposit : Type 0 where
  pub id : String
  pub block_hash : String
  pub recipient_account : String
  pub sender_account : Option String
  pub amount_raw : ℕ
  pub invoice_id : Option String
  pub disposition : DepositDisposition
  pub confirmed_at : ℕ

pub record Refund : Type 0 where
  pub id : String
  pub deposit_id : String
  pub invoice_id : Option String
  pub send_id : String
  pub destination : String
  pub amount_raw : ℕ
  pub status : SendStatus
  pub idempotency_key : String
  pub created_at : ℕ
  pub published_at : Option ℕ
  pub confirmed_at : Option ℕ

pub record Account : Type 0 where
  pub id : String
  pub account_key : Option String
  pub type : AccountType
  pub address : String
  pub label : Option String
  pub balance_raw : ℕ
  pub pending_raw : ℕ
  pub frontier : Option String
  pub representative : Option String
  pub derivation_index : Option ℕ
  pub created_at : ℕ
  pub updated_at : ℕ

-- The two forms of `Send.source`, and the field `address` that both have.
pub data SendSource : Type 0 where
  account : (account_id address : String) (derivation_index : Option ℕ) → SendSource
  invoice : (invoice_id address : String) (derivation_index : ℕ) → SendSource

abbrev pub source_address : SendSource → String
source_address (SendSource.account account_id address index) = address
source_address (SendSource.invoice invoice_id address index) = address

pub record Send : Type 0 where
  pub id : String
  pub source : SendSource
  pub destination : String
  pub amount_raw : ℕ
  pub status : SendStatus
  pub block_hash : Option String
  pub idempotency_key : String
  pub created_at : ℕ
  pub published_at : Option ℕ
  pub confirmed_at : Option ℕ

pub record ReceiveTask : Type 0 where
  pub id : String
  pub account_address : String
  pub derivation_index : ℕ
  pub pending_block_hash : String
  pub amount_raw : ℕ
  pub status : ReceiveTaskStatus
  pub receive_block_hash : Option String
  pub created_at : ℕ
  pub published_at : Option ℕ
  pub confirmed_at : Option ℕ
  pub failed_at : Option ℕ
  pub fail_reason : Option String
  pub retry_count : ℕ

pub record WebhookEndpoint : Type 0 where
  pub id : String
  pub url : String
  pub secret : String
  pub event_types : List String
  pub created_at : ℕ

-- `alreadyReceived?: boolean` is false where it is absent: the code tests its truth alone.
pub record ConfirmedBlock : Type 0 where
  pub block_hash : String
  pub sender_account : String
  pub recipient_account : String
  pub amount_raw : ℕ
  pub confirmed_at : ℕ
  pub already_received : Bool
