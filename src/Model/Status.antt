-- ===== src/Model/Status.antt =====
-- The status types of packages/model/src/index.ts, with their tests for equality.
use rai_flow.Prelude.{◌≡◌, ◌↔◌, Bool, true, false, arith, Eq}

pub data InvoiceStatus : Type 0 where
  open_ completed expired canceled : InvoiceStatus

pub data PaymentStatus : Type 0 where
  pending confirmed failed : PaymentStatus

pub data AccountType : Type 0 where
  managed watched : AccountType

pub data SendStatus : Type 0 where
  queued published confirmed failed : SendStatus

pub data CompletionPolicy : Type 0 where
  at_least exact : CompletionPolicy

pub data DepositDisposition : Type 0 where
  matched partial excess late unmatched : DepositDisposition

pub data ReceiveTaskStatus : Type 0 where
  pending processing published confirmed failed : ReceiveTaskStatus

abbrev pub invoice_status_beq : InvoiceStatus → InvoiceStatus → Bool
invoice_status_beq open_ open_ = true
invoice_status_beq completed completed = true
invoice_status_beq expired expired = true
invoice_status_beq canceled canceled = true
invoice_status_beq _ _ = false

pub invoice_status_beq_iff : (a b : InvoiceStatus) → (invoice_status_beq a b ≡ true) ↔ (a ≡ b)
invoice_status_beq_iff a b = ground arith

instance abbrev pub invoice_status_eq : Eq InvoiceStatus
invoice_status_eq = record { equals = invoice_status_beq; equals_iff = invoice_status_beq_iff }

abbrev pub send_status_beq : SendStatus → SendStatus → Bool
send_status_beq queued queued = true
send_status_beq published published = true
send_status_beq confirmed confirmed = true
send_status_beq failed failed = true
send_status_beq _ _ = false

pub send_status_beq_iff : (a b : SendStatus) → (send_status_beq a b ≡ true) ↔ (a ≡ b)
send_status_beq_iff a b = ground arith

instance abbrev pub send_status_eq : Eq SendStatus
send_status_eq = record { equals = send_status_beq; equals_iff = send_status_beq_iff }

abbrev pub task_status_beq : ReceiveTaskStatus → ReceiveTaskStatus → Bool
task_status_beq pending pending = true
task_status_beq processing processing = true
task_status_beq published published = true
task_status_beq confirmed confirmed = true
task_status_beq failed failed = true
task_status_beq _ _ = false

pub task_status_beq_iff : (a b : ReceiveTaskStatus) → (task_status_beq a b ≡ true) ↔ (a ≡ b)
task_status_beq_iff a b = ground arith

instance abbrev pub task_status_eq : Eq ReceiveTaskStatus
task_status_eq = record { equals = task_status_beq; equals_iff = task_status_beq_iff }

abbrev pub account_type_beq : AccountType → AccountType → Bool
account_type_beq managed managed = true
account_type_beq watched watched = true
account_type_beq _ _ = false

pub account_type_beq_iff : (a b : AccountType) → (account_type_beq a b ≡ true) ↔ (a ≡ b)
account_type_beq_iff a b = ground arith

instance abbrev pub account_type_eq : Eq AccountType
account_type_eq = record { equals = account_type_beq; equals_iff = account_type_beq_iff }
