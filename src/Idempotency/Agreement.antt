-- ===== src/Idempotency/Agreement.antt =====
-- The answers of the two idempotency replay stores, side by side.
use rai_flow.Prelude.{
  ℕ, String, true, ◌≡◌, refl, none, some, List, [], ◌∷◌, ◌++◌, ◌==◌, string_eq, if◌then◌else◌, any,
  arith, eq_iff, All, is_some, ==-refl,
}
use mathlib.Core.Option
use rai_flow.Prelude.Dict
use rai_flow.Prelude.Dict.{Dict, get-set}
use rai_flow.Storage.Db.{KeyRow}
use rai_flow.Idempotency.Keys.{scoped_idempotency_key, is_plain, split-scoped}
use rai_flow.Idempotency.Store.{
  IdempotencyRecord, row_to_record, row_of, get, insert_key, put, put_in_memory, Put, apply,
  apply_in_memory, run, run_in_memory,
}

row_of-append :
    (key : String) (rows : List KeyRow) (r : KeyRow)
    → row_of key (rows ++ r ∷ []) ≡ (
        if any (λ (k : KeyRow). k.key == key) rows
        then row_of key rows
        else if r.key == key
        then some r
        else none)
row_of-append key [] r = refl
row_of-append key (k ∷ rows) r = ground (arith, row_of-append key rows r)

any-row_of :
    (key : String) (rows : List KeyRow)
    → any (λ (k : KeyRow). k.key == key) rows ≡ is_some (row_of key rows)
any-row_of key [] = refl
any-row_of key (k ∷ rows) = ground (arith, any-row_of key rows)

-- What the SELECT after the INSERT finds.
pub row_of-insert_key :
    (key : String) (row : KeyRow) (rows : List KeyRow)
    → row_of key (insert_key row rows) ≡ elim (row_of key rows) [
      | some r ↦ some r
      | none ↦ if row.key == key then some row else none
    ]
unfolding insert_key
row_of-insert_key key row rows = grind (
  arith,
  row_of-append key rows row,
  any-row_of key rows,
  any-row_of row.key rows,
  eq_iff row.key key,
)

row_to_record-scoped :
    (scope key resource_type resource_id : String) (now : ℕ)
    → is_plain scope ≡ true
    → row_to_record (record {
      key = scoped_idempotency_key scope key;
      resource_type = resource_type;
      resource_id = resource_id;
      created_at = now;
    })
      ≡ record {
        key = key;
        scope = scope;
        resource_type = resource_type;
        resource_id = resource_id;
        created_at = now;
      }
unfolding row_to_record
row_to_record-scoped scope key resource_type resource_id now h = rw (split-scoped scope key h) refl

Agree : Dict String IdempotencyRecord → List KeyRow → Type 0
Agree m rows = (k : String) → Dict.get k m ≡ Option.map row_to_record (row_of k rows)

Agree-put :
    (p : Put) (m : Dict String IdempotencyRecord) (rows : List KeyRow)
    → is_plain p.scope ≡ true
    → Agree m rows
    → Agree (apply_in_memory p m).0 (apply p rows).0 × ((apply_in_memory p m).1 ≡ (apply p rows).1)
unfolding Agree put put_in_memory get
Agree-put p m rows plain h =
    let scoped = scoped_idempotency_key p.scope p.key in
    let row : KeyRow = record {
      key = scoped;
      resource_type = p.resource_type;
      resource_id = p.resource_id;
      created_at = p.now;
    } in
    let shown = row_to_record-scoped p.scope p.key p.resource_type p.resource_id p.now plain in
    (
      λ k.
          grind
            (arith, get-set, h k, h scoped, row_of-insert_key k row rows, eq_iff scoped k, shown),
      ground (arith, h scoped, row_of-insert_key scoped row rows, ==-refl scoped, shown),
    )

Agree-run :
    (ps : List Put) (m : Dict String IdempotencyRecord) (rows : List KeyRow)
    → All (λ (p : Put). is_plain p.scope ≡ true) ps
    → Agree m rows
    → (run_in_memory ps m).1 ≡ (run ps rows).1
unfolding run run_in_memory
Agree-run [] m rows plain h = refl
Agree-run (p ∷ ps) m rows (plain, rest) h =
    let (state, same) = Agree-put p m rows plain h in cc (same, Agree-run ps _ _ rest state)

-- Where no scope has a colon, every sequence of `put` calls from empty stores gets the same records
-- from the SQLite store as from the in-memory store.
pub replay_stores_agree :
    (ps : List Put)
    → All (λ (p : Put). is_plain p.scope ≡ true) ps
    → (run_in_memory ps []).1 ≡ (run ps []).1
unfolding Agree
replay_stores_agree ps plain = Agree-run ps [] [] plain (λ k. unfold Dict.get in refl)

-- A `put` always answers with a record, and every key that had an answer before it keeps that answer,
-- the key of the `put` included.
pub get-put :
    (p : Put) (scope key : String) (rows : List KeyRow)
    → (is_some (apply p rows).1 ≡ true)
      × ((r : IdempotencyRecord)
          → get scope key rows ≡ some r
          → get scope key (apply p rows).0 ≡ some r)
unfolding put get
get-put p scope key rows =
    let scoped = scoped_idempotency_key p.scope p.key in
    let row : KeyRow = record {
      key = scoped;
      resource_type = p.resource_type;
      resource_id = p.resource_id;
      created_at = p.now;
    } in
    (
      ground (arith, row_of-insert_key scoped row rows, ==-refl scoped),
      λ r found. ground (arith, row_of-insert_key (scoped_idempotency_key scope key) row rows),
    )
