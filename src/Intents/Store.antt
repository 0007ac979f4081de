-- ===== src/Intents/Store.antt =====
-- The block intent stores, in SQLite and in memory. The stores of sends and of receives differ in
-- the name of the id only.
use rai_flow.Prelude.{
  ℕ, String, Bool, true, false, ◌&&◌, Option, none, some, List, [], ◌∷◌, ◌++◌, map, ◌==◌, string_eq,
  if◌then◌else◌, find, any,
}
use rai_flow.Model.Errors.{Result, ok, err, plain}
use rai_flow.Prelude.Dict
use rai_flow.Prelude.Dict.{Dict}

-- `SendBlockIntent` and `ReceiveBlockIntent`; `owner_id` is `sendId` or `taskId`.
pub record Intent : Type 0 where
  pub owner_id : String
  pub block_hash : String
  pub block_json : String
  pub frontier : String
  pub resulting_balance_raw : ℕ
  pub created_at : ℕ

abbrev pub get : String → List Intent → Option Intent
get owner_id = find (λ (i : Intent). i.owner_id == owner_id)

abbrev pub selected : Option Intent → Result Intent
selected none = err (plain "Block intent was not stored")
selected (some i) = ok i

-- INSERT … ON CONFLICT DO NOTHING, then SELECT, which throws where there is no row. `owners` are the
-- ids of the sends, or of the receive tasks: the INSERT of a row for another id throws.
unfoldable pub create_if_absent : List String → Intent → List Intent → List Intent × Result Intent
create_if_absent owners intent rows =
    if any (λ (i : Intent). i.owner_id == intent.owner_id) rows
    then (rows, selected (get intent.owner_id rows))
    else if any (λ id. id == intent.owner_id) owners
    then (rows ++ intent ∷ [], selected (get intent.owner_id (rows ++ intent ∷ [])))
    else (rows, err (plain "FOREIGN KEY constraint failed"))

abbrev pub is_target : String → String → Intent → Bool
is_target owner_id block_hash i = i.owner_id == owner_id && i.block_hash == block_hash

-- UPDATE … SET block_json = ? WHERE id = ? AND block_hash = ?
unfoldable pub update_work : String → String → String → List Intent → List Intent × Bool
update_work owner_id block_hash block_json rows = (
  map
      (λ (i : Intent).
        if is_target owner_id block_hash i then record i { block_json = block_json } else i)
      rows,
  any (is_target owner_id block_hash) rows,
)

-- `createIfAbsent` of the in-memory store.
unfoldable pub create_in_memory : Intent → Dict String Intent → Dict String Intent × Result Intent
create_in_memory intent m = elim (Dict.get intent.owner_id m) [
  | some existing ↦ (m, ok existing)
  | none ↦ (Dict.set intent.owner_id intent m, ok intent)
]

-- `updateWork` of the in-memory store.
unfoldable pub update_in_memory :
    String → String → String → Dict String Intent → Dict String Intent × Bool
update_in_memory owner_id block_hash block_json m = elim (Dict.get owner_id m) [
  | none ↦ (m, false)
  | some existing ↦
      if existing.block_hash == block_hash
      then (Dict.set owner_id (record existing { block_json = block_json }) m, true)
      else (m, false)
]

-- The calls; a creation comes with the ids that the other table has at that time.
pub data Call : Type 0 where
  creates : (owners : List String) → Intent → Call
  updates : (owner_id block_hash block_json : String) → Call
  gets : (owner_id : String) → Call

pub data Reply : Type 0 where
  stored : Result Intent → Reply
  found : Option Intent → Reply
  changed : Bool → Reply

unfoldable pub step : Call → List Intent → List Intent × Reply
unfolding create_if_absent update_work
step (creates owners intent) rows =
    let (rows', row) = create_if_absent owners intent rows in (rows', stored row)
step (gets owner_id) rows = (rows, found (get owner_id rows))
step (updates owner_id block_hash block_json) rows =
    let (rows', done) = update_work owner_id block_hash block_json rows in (rows', changed done)

unfoldable pub run : List Call → List Intent → List Intent × List Reply
run [] rows = (rows, [])
run (c ∷ cs) rows =
    let (rows1, reply) = step c rows in
    let (rows2, replies) = run cs rows1 in (rows2, reply ∷ replies)

unfoldable pub step_in_memory : Call → Dict String Intent → Dict String Intent × Reply
unfolding create_in_memory update_in_memory
step_in_memory (gets owner_id) m = (m, found (Dict.get owner_id m))
step_in_memory (creates owners intent) m =
    let (m', row) = create_in_memory intent m in (m', stored row)
step_in_memory (updates owner_id block_hash block_json) m =
    let (m', done) = update_in_memory owner_id block_hash block_json m in (m', changed done)

unfoldable pub run_in_memory : List Call → Dict String Intent → Dict String Intent × List Reply
run_in_memory [] m = (m, [])
run_in_memory (c ∷ cs) m =
    let (m1, reply) = step_in_memory c m in
    let (m2, replies) = run_in_memory cs m1 in (m2, reply ∷ replies)
