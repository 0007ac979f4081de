-- ===== src/Recovery/Reconcile.antt =====
-- `reconcile`. The answers of the RPC client and of the clock are parameters; a call that throws ends
-- `reconcile` where it stands, and is not modelled.
use rai_flow.Prelude.{
  ℕ, ◌*◌, String, Bool, true, not, ◌&&◌, ◌||◌, Option, none, some, List, [], ◌∷◌, ◌++◌, ◌==◌,
  string_eq, if◌then◌else◌, holds,
}
use rai_flow.Model.{ConfirmedBlock}

-- An entry of `account_history`; a `link` that is empty counts as absent.
pub record Entry : Type 0 where
  pub hash : String
  pub type : String
  pub subtype : Option String
  pub link : Option String

-- What `blockInfo` tells of a block; `local_timestamp` is in seconds.
pub record BlockInfo : Type 0 where
  pub confirmed : Bool
  pub subtype : Option String
  pub link_as_account : Option String
  pub block_account : String
  pub amount : ℕ
  pub local_timestamp : Option ℕ

unfoldable pub is_receive_block : Entry → Bool
is_receive_block e =
    holds e.subtype "receive" || holds e.subtype "open" || e.type == "receive" || e.type == "open"

-- The entries after the one that has a hash, `none` where no entry has it.
unfoldable pub after_hash : String → List Entry → Option (List Entry)
after_hash hash [] = none
after_hash hash (e ∷ es) = if e.hash == hash then some es else after_hash hash es

abbrev pub reverse_onto : List Entry → List Entry → List Entry
reverse_onto done [] = done
reverse_onto done (e ∷ es) = reverse_onto (e ∷ done) es

-- The entries to go through: `from_cursor` is the history from the cursor on, oldest first, and
-- `recent` the latest entries, newest first.
unfoldable pub window : Option String → (from_cursor recent : List Entry) → List Entry
unfolding after_hash
window none from_cursor recent = reverse_onto [] recent
window (some cursor) from_cursor recent = elim (after_hash cursor from_cursor) [
  | none ↦ reverse_onto [] recent
  | some rest ↦ rest
]

abbrev pub credit : String → String → BlockInfo → ℕ → ConfirmedBlock
credit account link source now = record {
  block_hash = link;
  sender_account = source.block_account;
  recipient_account = account;
  amount_raw = source.amount;
  confirmed_at = elim source.local_timestamp [ none ↦ now | some seconds ↦ seconds * 1000 ];
  already_received = true;
}

-- The blocks that an entry hands to the sink; `none` where `reconcile` returns at the entry.
unfoldable pub settle : String → (String → BlockInfo) → ℕ → Entry → Option (List ConfirmedBlock)
unfolding is_receive_block
settle account block_info now e =
    if is_receive_block e
    then (elim e.link [
      | none ↦ none
      | some link ↦
          if not (block_info link).confirmed
          then none
          else if holds (block_info link).subtype "send"
              && holds (block_info link).link_as_account account
          then some (credit account link (block_info link) now ∷ [])
          else some []
    ])
    else some []

-- The loop: the cursor and the blocks handed to the sink, in order.
unfoldable pub process :
    String
    → (String → BlockInfo)
    → ℕ
    → List Entry
    → Option String
    → Option String × List ConfirmedBlock
process account block_info now [] cursor = (cursor, [])
process account block_info now (e ∷ es) cursor =
    let (last, rest) = process account block_info now es (some e.hash) in
    elim (settle account block_info now e) [
      | none ↦ (cursor, [])
      | some blocks ↦ (last, blocks ++ rest)
    ]

unfoldable pub reconcile :
    String
    → (String → BlockInfo)
    → ℕ
    → (from_cursor recent : List Entry) → Option String
    → Option String × List ConfirmedBlock
unfolding process window
reconcile account block_info now from_cursor recent cursor =
    process account block_info now (window cursor from_cursor recent) cursor
