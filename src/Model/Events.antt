-- ===== src/Model/Events.antt =====
-- `RaiFlowEvent`. `data` is a JSON object in the source: here one constructor for each shape that
-- the modelled code writes or reads back.
use rai_flow.Prelude.{ℕ, String, Option}
use rai_flow.Model.Resources.{Invoice, Payment, Deposit, Refund, Account, Send, ReceiveTask}

pub data EventData : Type 0 where
  deposit_data : Deposit → EventData
  payment_data : Payment → Invoice → EventData
  -- a payment under the name of an earlier release, `payment.sendBlockHash`
  sent_payment_data : (send_block_hash : String) → EventData
  invoice_data : Invoice → EventData
  account_data : Account → EventData
  send_data : Send → EventData
  refund_data : Send → Refund → EventData
  failed_send_data : Send → (reason : String) → EventData
  swept_data : Invoice → Send → EventData
  receive_data : ReceiveTask → EventData
  block_data : (block_hash : String) → EventData

-- `sequence` is absent until the event is stored.
pub record Event : Type 0 where
  pub sequence : Option ℕ
  pub id : String
  pub type : String
  pub timestamp : ℕ
  pub payload : EventData
  pub resource_id : String
  pub resource_type : String
