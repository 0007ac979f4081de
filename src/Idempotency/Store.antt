-- ===== src/Idempotency/Store.antt =====
-- `createSqliteIdempotencyReplayStore` and `createIdempotencyReplayStore`.
use rai_flow.Prelude.{
  ℕ, String, Option, none, some, List, [], ◌∷◌, ◌++◌, ◌==◌, string_eq, if◌then◌else◌, find, any,
}
use mathlib.Core.Option
use rai_flow.Prelude.Dict
use rai_flow.Prelude.Dict.{Dict}
use rai_flow.Storage.Db.{KeyRow}
use rai_flow.Idempotency.Keys.{scoped_idempotency_key, split_at_colon}

pub record IdempotencyRecord : Type 0 where
  pub key : String
  pub scope : String
  pub resource_type : String
  pub resource_id : String
  pub created_at : ℕ

unfoldable pub row_to_record : KeyRow → IdempotencyRecord
row_to_record row = record {
  key = elim (split_at_colon row.key) [ none ↦ row.key | some (scope, key) ↦ key ];
  scope = elim (split_at_colon row.key) [ none ↦ "default" | some (scope, key) ↦ scope ];
  resource_type = row.resource_type;
  resource_id = row.resource_id;
  created_at = row.created_at;
}

-- SELECT * FROM idempotency_keys WHERE key = ?
abbrev pub row_of : String → List KeyRow → Option KeyRow
row_of key = find (λ (r : KeyRow). r.key == key)

unfoldable pub get : String → String → List KeyRow → Option IdempotencyRecord
unfolding scoped_idempotency_key row_to_record
get scope key rows = Option.map row_to_record (row_of (scoped_idempotency_key scope key) rows)

-- INSERT OR IGNORE INTO idempotency_keys
unfoldable pub insert_key : KeyRow → List KeyRow → List KeyRow
insert_key row rows = if any (λ (r : KeyRow). r.key == row.key) rows then rows else rows ++ row ∷ []

-- `none` where the code throws because the SELECT finds no row.
unfoldable pub put :
    String → String → String → String → ℕ → List KeyRow → List KeyRow × Option IdempotencyRecord
unfolding insert_key get scoped_idempotency_key
put scope key resource_type resource_id now rows = (rows', get scope key rows')
  where
    rows' : List KeyRow
    rows' =
        insert_key
          (record {
            key = scoped_idempotency_key scope key;
            resource_type = resource_type;
            resource_id = resource_id;
            created_at = now;
          })
          rows

-- `put` of the in-memory store; its `get` looks the scoped key up in the map.
unfoldable pub put_in_memory :
    String
    → String
    → String
    → String
    → ℕ
    → Dict String IdempotencyRecord
    → Dict String IdempotencyRecord × Option IdempotencyRecord
put_in_memory scope key resource_type resource_id now m = elim (Dict.get store_key m) [
  | some existing ↦ (m, some existing)
  | none ↦ (Dict.set store_key created m, some created)
]
  where
    store_key : String
    store_key = scoped_idempotency_key scope key

    created : IdempotencyRecord
    created = record {
      key = key;
      scope = scope;
      resource_type = resource_type;
      resource_id = resource_id;
      created_at = now;
    }

unfoldable pub get_in_memory :
    String → String → Dict String IdempotencyRecord → Option IdempotencyRecord
get_in_memory scope key m = Dict.get (scoped_idempotency_key scope key) m

-- A call of `put`, with its arguments and the time it reads.
pub record Put : Type 0 where
  pub scope : String
  pub key : String
  pub resource_type : String
  pub resource_id : String
  pub now : ℕ

abbrev pub apply : Put → List KeyRow → List KeyRow × Option IdempotencyRecord
apply p = put p.scope p.key p.resource_type p.resource_id p.now

abbrev pub apply_in_memory :
    Put → Dict String IdempotencyRecord → Dict String IdempotencyRecord × Option IdempotencyRecord
apply_in_memory p = put_in_memory p.scope p.key p.resource_type p.resource_id p.now

unfoldable pub run : List Put → List KeyRow → List KeyRow × List (Option IdempotencyRecord)
run [] rows = (rows, [])
run (p ∷ ps) rows =
    let (rows1, reply) = apply p rows in
    let (rows2, replies) = run ps rows1 in (rows2, reply ∷ replies)

unfoldable pub run_in_memory :
    List Put
    → Dict String IdempotencyRecord
    → Dict String IdempotencyRecord × List (Option IdempotencyRecord)
run_in_memory [] m = (m, [])
run_in_memory (p ∷ ps) m =
    let (m1, reply) = apply_in_memory p m in
    let (m2, replies) = run_in_memory ps m1 in (m2, reply ∷ replies)
