-- ===== src/Recovery/Cursor.antt =====
-- The cursor of `AccountHistoryRecovery.reconcile`: the entries that a run settles.
use rai_flow.Prelude.{String, true, false, ◌≡◌, Option, none, some, List, [], ◌∷◌, string_eq, ◌⊎◌}
use rai_flow.Recovery.Reconcile.{Entry, BlockInfo, is_receive_block}

-- A receive whose source is known and confirmed, or another kind of block.
abbrev pub IsSettled : (String → BlockInfo) → Entry → Type 0
IsSettled block_info e =
    (is_receive_block e ≡ false)
    ⊎ ((link : String) × (e.link ≡ some link) × ((block_info link).confirmed ≡ true))

-- The cursor after some entries.
abbrev pub last_hash : Option String → List Entry → Option String
last_hash cursor [] = cursor
last_hash cursor (e ∷ es) = last_hash (some e.hash) es

-- The entry at which the run stopped, where it did not reach the end.
abbrev pub Stops : (String → BlockInfo) → List Entry → Type 0
Stops block_info [] = Unit
Stops block_info (e ∷ es) =
    (is_receive_block e ≡ true)
    × ((e.link ≡ none)
        ⊎ ((link : String) × (e.link ≡ some link) × ((block_info link).confirmed ≡ false)))
