-- ===== src/Leases/Lease.antt =====
-- `AccountOperationLease`, and the operations of `AccountOperationLeaseStore` as data.
use rai_flow.Prelude.{ℕ, String, Bool, Option, ◌==◌, string_eq, nat_eq, ◌&&◌}

pub record Lease : Type 0 where
  pub account_address : String
  pub owner_id : String
  pub fencing_token : ℕ
  pub expires_at : ℕ

-- `acquire`, `renew`, `isCurrent` and `release`, with their arguments.
pub data Call : Type 0 where
  acquires : (account_address owner_id : String) (now expires_at : ℕ) → Call
  renews : Lease → (now expires_at : ℕ) → Call
  checks : Lease → (now : ℕ) → Call
  releases : Lease → Call

pub data Reply : Type 0 where
  granted : Option Lease → Reply
  answered : Bool → Reply
  done : Reply

-- The row is still that of the lease: same owner, same token.
abbrev pub same_holder : Lease → Lease → Bool
same_holder row lease = row.owner_id == lease.owner_id && row.fencing_token == lease.fencing_token

-- '1970-01-01T00:00:00.000Z'
abbrev pub epoch : ℕ
epoch = 0
