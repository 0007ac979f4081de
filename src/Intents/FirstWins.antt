-- ===== src/Intents/FirstWins.antt =====
-- What calls keep of a stored intent, and the answers of the two stores side by side.
use rai_flow.Prelude.{
  String, true, false, ◌||◌, ◌≡◌, refl, none, some, List, [], ◌∷◌, ◌++◌, map, ◌==◌, string_eq,
  if◌then◌else◌, any, arith, eq_iff, inl, inr, Bool-cases, Option-cases, ==-refl, is_some, All, ap,
}
use rai_flow.Prelude.Dict
use rai_flow.Prelude.Dict.{Dict, get-set}
use rai_flow.Intents.Store.{
  Intent, get, create_if_absent, update_work, is_target, create_in_memory, update_in_memory, Call,
  creates, updates, gets, found, step, run, step_in_memory, run_in_memory,
}

-- The same signed block: only the work in its JSON may differ.
pub record SameBlock (a b : Intent) : Type 0 where
  pub block_hash : a.block_hash ≡ b.block_hash
  pub frontier : a.frontier ≡ b.frontier
  pub resulting_balance_raw : a.resulting_balance_raw ≡ b.resulting_balance_raw

abbrev pub Keeps : String → Intent → List Intent → Type 0
Keeps id i rows = (j : Intent) × (get id rows ≡ some j) × SameBlock j i

get-append :
    (id : String) (rows : List Intent) (i : Intent)
    → get id (rows ++ i ∷ []) ≡ (
        if any (λ (k : Intent). k.owner_id == id) rows
        then get id rows
        else if i.owner_id == id
        then some i
        else none)
get-append id [] i = refl
get-append id (k ∷ rows) i = ground (arith, get-append id rows i)

any-get :
    (id : String) (rows : List Intent)
    → any (λ (k : Intent). k.owner_id == id) rows ≡ is_some (get id rows)
any-get id [] = refl
any-get id (k ∷ rows) = ground (arith, any-get id rows)

abbrev rework : String → String → String → Intent → Intent
rework id hash json i = if is_target id hash i then record i { block_json = json } else i

get-rework :
    (id : String) (owner hash json : String) (rows : List Intent)
    → get id (map (rework owner hash json) rows)
      ≡ elim (get id rows) [ none ↦ none | some i ↦ some (rework owner hash json i) ]
get-rework id owner hash json [] = refl
get-rework id owner hash json (k ∷ rows) = ground (arith, get-rework id owner hash json rows)

pub get-id :
    (id : String) (rows : List Intent)
    → elim (get id rows) [ none ↦ true | some i ↦ i.owner_id == id ] ≡ true
get-id id [] = refl
get-id id (k ∷ rows) = ground (arith, get-id id rows)

pub step-Keeps :
    (c : Call) (id : String) (i : Intent) (rows : List Intent)
    → Keeps id i rows
    → Keeps id i (step c rows).0
unfolding step create_if_absent update_work
step-Keeps (creates owners intent) id i rows (j, e, same) =
    (j, ground (arith, get-append id rows intent, any-get id rows), same)
step-Keeps (gets owner) id i rows h = h
step-Keeps (updates owner hash json) id i rows (j, e, same) = (
  rework owner hash json j,
  ground (arith, get-rework id owner hash json rows),
  record {
    block_hash = ground (arith, same.block_hash);
    frontier = ground (arith, same.frontier);
    resulting_balance_raw = ground (arith, same.resulting_balance_raw);
  },
)

-- Once an intent is stored for an id, every sequence of calls keeps an intent with its block hash,
-- frontier and resulting balance for the id.
pub run-Keeps :
    (cs : List Call) (id : String) (i : Intent) (rows : List Intent)
    → Keeps id i rows
    → Keeps id i (run cs rows).0
unfolding run
run-Keeps [] id i rows h = h
run-Keeps (c ∷ cs) id i rows h = run-Keeps cs id i (step c rows).0 (step-Keeps c id i rows h)

-- `send_id TEXT PRIMARY KEY`: one row for each id.
Keyed : List Intent → Type 0
Keyed [] = Unit
Keyed (i ∷ rows) = (any (λ (k : Intent). k.owner_id == i.owner_id) rows ≡ false) × Keyed rows

any_id-append :
    (id : String) (rows : List Intent) (i : Intent)
    → any (λ (k : Intent). k.owner_id == id) (rows ++ i ∷ [])
      ≡ (any (λ (k : Intent). k.owner_id == id) rows || i.owner_id == id)
any_id-append id [] i = ground arith
any_id-append id (k ∷ rows) i = ground (arith, any_id-append id rows i)

any_id-rework :
    (id owner hash json : String) (rows : List Intent)
    → any (λ (k : Intent). k.owner_id == id) (map (rework owner hash json) rows)
      ≡ any (λ (k : Intent). k.owner_id == id) rows
any_id-rework id owner hash json [] = refl
any_id-rework id owner hash json (k ∷ rows) = ground (arith, any_id-rework id owner hash json rows)

Keyed-append :
    (rows : List Intent) (i : Intent)
    → Keyed rows
    → any (λ (k : Intent). k.owner_id == i.owner_id) rows ≡ false
    → Keyed (rows ++ i ∷ [])
unfolding Keyed
Keyed-append [] i h e = (refl, tt)
Keyed-append (k ∷ rows) i (h, hs) e = (
  ground (
    arith,
    any_id-append k.owner_id rows i,
    eq_iff k.owner_id i.owner_id,
    eq_iff i.owner_id k.owner_id,
  ),
  Keyed-append rows i hs (ground arith),
)

Keyed-rework :
    (owner hash json : String) (rows : List Intent)
    → Keyed rows
    → Keyed (map (rework owner hash json) rows)
unfolding Keyed
Keyed-rework owner hash json [] h = tt
Keyed-rework owner hash json (k ∷ rows) (h, hs) = (
  ground (arith, any_id-rework k.owner_id owner hash json rows),
  Keyed-rework owner hash json rows hs,
)

absent_target :
    (owner hash : String) (rows : List Intent)
    → any (λ (k : Intent). k.owner_id == owner) rows ≡ false
    → any (is_target owner hash) rows ≡ false
absent_target owner hash [] h = refl
absent_target owner hash (k ∷ rows) h = ground (arith, absent_target owner hash rows)

any-is_target :
    (owner hash : String) (rows : List Intent)
    → Keyed rows
    → any (is_target owner hash) rows
      ≡ elim (get owner rows) [ none ↦ false | some i ↦ i.block_hash == hash ]
unfolding Keyed
any-is_target owner hash [] h = refl
any-is_target owner hash (k ∷ rows) (h, hs) = elim (Bool-cases (k.owner_id == owner)) [
  | inl here ↦
      let at : k.owner_id ≡ owner = (eq_iff k.owner_id owner).0 here in
      let none_left = absent_target owner hash rows (rw at at h) in ground arith
  | inr other ↦ ground (arith, any-is_target owner hash rows hs)
]

-- The map and the table show the same intent for every id.
record Agree (m : Dict String Intent) (rows : List Intent) : Type 0 where
  keyed : Keyed rows
  same : (id : String) → Dict.get id m ≡ get id rows

-- Where the other table has the id, a creation answers alike in both stores.
Agree-creates :
    (owners : List String) (intent : Intent) (m : Dict String Intent) (rows : List Intent)
    → any (λ id. id == intent.owner_id) owners ≡ true
    → Agree m rows
    → Agree (create_in_memory intent m).0 (create_if_absent owners intent rows).0
      × ((create_in_memory intent m).1 ≡ (create_if_absent owners intent rows).1)
unfolding create_if_absent create_in_memory
Agree-creates owners intent m rows owned h = (
  record {
    keyed = ground (arith, owned, h.keyed, Keyed-append rows intent);
    same = λ id. grind (
      arith,
      owned,
      get-set,
      h.same id,
      h.same intent.owner_id,
      get-append id rows intent,
      any-get intent.owner_id rows,
      any-get id rows,
      eq_iff intent.owner_id id,
      get-set intent.owner_id id intent m,
    );
  },
  ground (
    arith,
    owned,
    h.same intent.owner_id,
    get-append intent.owner_id rows intent,
    any-get intent.owner_id rows,
    ==-refl intent.owner_id,
  ),
)

Agree-updates :
    (owner hash json : String) (m : Dict String Intent) (rows : List Intent)
    → Agree m rows
    → Agree (update_in_memory owner hash json m).0 (update_work owner hash json rows).0
      × ((update_in_memory owner hash json m).1 ≡ (update_work owner hash json rows).1)
unfolding update_work update_in_memory
Agree-updates owner hash json m rows h = (
  record {
    keyed = Keyed-rework owner hash json rows h.keyed;
    same = λ id. elim (Option-cases (get id rows)) [
      | inl missing ↦ grind (
        arith,
        get-set,
        h.same id,
        h.same owner,
        get-rework id owner hash json rows,
        eq_iff owner id,
      )
      | inr (i, at) ↦ grind (
        arith,
        get-set,
        h.same id,
        h.same owner,
        get-rework id owner hash json rows,
        get-id id rows,
        eq_iff owner id,
        eq_iff i.owner_id owner,
        eq_iff i.owner_id id,
      )
    ];
  },
  ground (arith, h.same owner, any-is_target owner hash rows h.keyed),
)

-- A creation is for a send, or a receive task, that is stored.
abbrev pub IsOwned : Call → Type 0
IsOwned (creates owners intent) = any (λ id. id == intent.owner_id) owners ≡ true
IsOwned (updates owner hash json) = Unit
IsOwned (gets owner) = Unit

Agree-step :
    (c : Call) (m : Dict String Intent) (rows : List Intent)
    → IsOwned c
    → Agree m rows
    → Agree (step_in_memory c m).0 (step c rows).0 × ((step_in_memory c m).1 ≡ (step c rows).1)
unfolding step step_in_memory
Agree-step (creates owners intent) m rows owned h =
    let (state, same) = Agree-creates owners intent m rows owned h in (state, cc)
Agree-step (updates owner hash json) m rows owned h =
    let (state, same) = Agree-updates owner hash json m rows h in (state, cc)
Agree-step (gets owner) m rows owned h = (h, ap found (h.same owner))

Agree-run :
    (cs : List Call) (m : Dict String Intent) (rows : List Intent)
    → All IsOwned cs
    → Agree m rows
    → (run_in_memory cs m).1 ≡ (run cs rows).1
unfolding run run_in_memory
Agree-run [] m rows owned h = refl
Agree-run (c ∷ cs) m rows (owned, rest) h =
    let (state, same) = Agree-step c m rows owned h in cc (same, Agree-run cs _ _ rest state)

-- From empty stores, every sequence of calls that creates intents for stored sends or receive tasks
-- only gets the same replies from the SQLite stores of block intents and from the in-memory stores.
pub intent_stores_agree :
    (cs : List Call) → All IsOwned cs → (run_in_memory cs []).1 ≡ (run cs []).1
intent_stores_agree cs owned =
    Agree-run cs [] [] owned
      (record { keyed = unfold Keyed in tt; same = λ id. unfold Dict.get in refl })
