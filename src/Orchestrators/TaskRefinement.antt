-- ===== src/Orchestrators/TaskRefinement.antt =====
-- The table of receive tasks beside the in-memory store.
use rai_flow.Prelude.{
  String, Bool, true, false, ◌≡◌, refl, some, none, List, [], ◌∷◌, ◌++◌, map, ◌==◌, string_eq,
  arith, eq_iff, inl, inr, Bool-cases, Option-cases, ap, ◌∙◌, sym, is_some, filter,
}
use rai_flow.Prelude.Dict
use rai_flow.Prelude.Dict.{Dict, values}
use rai_flow.Model.{ReceiveTask, ReceiveTaskStatus, task_status_eq}
use rai_flow.Storage.Db.{Db}
use rai_flow.Orchestrators.Tasks.{Patch, patched, replaced, clashes}
use rai_flow.Orchestrators.Tasks as Tasks
use rai_flow.Orchestrators.TaskStores.{
  Memory, create, get_by_pending_block_hash, list_by_status, update, Call, creates, updates, gets,
  finds, lists, Reply, task_is, tasks_are, step, step_in_memory, run, run_in_memory,
}
use rai_flow.Orchestrators.TaskMaps.{
  by_id, by_hash, has_id, has_hash, Distinct, get-by_id, get-by_hash, set-by_id, set-by_hash,
  set-replaced, has_id-get, has_hash-get, has_id-replaced, Distinct-replaced, has_id-append,
  Distinct-append, by_hash-replaced, get-id, get-found, values-by_id,
}

-- The maps have the rows of the table, in its order.
pub record Implements (db : Db) (m : Memory) : Type 0 where
  pub tasks : m.tasks ≡ by_id db.receive_tasks
  pub hashes : m.by_pending_hash ≡ by_hash db.receive_tasks
  pub distinct : Distinct db.receive_tasks
  pub named : has_id "" db.receive_tasks ≡ false

-- Both stores answer alike, and the maps are those of the table again.
record Agree (left : Db × Reply) (right : Memory × Reply) : Type 0 where
  replies : left.1 ≡ right.1
  states : Implements left.0 right.0

-- An id that is drawn is not empty and not in use, and a patch leaves the id, the pending hash and
-- the time of creation.
abbrev pub IsFresh : Call → Db → Type 0
IsFresh (creates t) db = (has_id t.id db.receive_tasks ≡ false) × ((t.id == "") ≡ false)
IsFresh (updates id patch) db =
    (patch.id ≡ none) × (patch.pending_block_hash ≡ none) × (patch.created_at ≡ none)
IsFresh _ db = Unit {0}

Agree-finds :
    (hash : String) (db : Db) (m : Memory)
    → Implements db m
    → get_by_pending_block_hash hash m ≡ Tasks.get_by_pending_block_hash hash db.receive_tasks
unfolding get_by_pending_block_hash
Agree-finds hash db m i =
    let rows = db.receive_tasks in
    let looked = ap (Dict.get hash) i.hashes ∙ get-by_hash hash rows in
    elim (Option-cases (Tasks.get_by_pending_block_hash hash rows)) [
      | inl missing ↦ ground (arith, looked, missing)
      | inr (t, known) ↦
          let found = get-found hash t rows i.distinct known in
          let same : Dict.get t.id m.tasks ≡ some t =
            ap (Dict.get t.id) i.tasks ∙ get-by_id t.id rows ∙ found in
          let present : has_id t.id rows ≡ true = has_id-get t.id rows ∙ ap is_some found in
          elim (Bool-cases (t.id == "")) [
            | inr named ↦ ground (arith, looked, known, same, named)
            | inl blank ↦
                let is_blank = (eq_iff t.id "").0 blank in
                absurd (ground (arith, ap (λ k. has_id k rows) is_blank, present, i.named))
          ]
    ]

Agree-lists :
    (status : ReceiveTaskStatus) (db : Db) (m : Memory)
    → Implements db m
    → list_by_status status m ≡ Tasks.list_by_status status db.receive_tasks
unfolding list_by_status Tasks.list_by_status
Agree-lists status db m i =
    ap (λ ts. Tasks.oldest_first (filter (λ (t : ReceiveTask). t.status == status) ts))
      (ap values i.tasks ∙ values-by_id db.receive_tasks)

-- A hash that is in the table is in the map.
hash_known :
    (hash : String) (b : Bool) (db : Db) (m : Memory)
    → Implements db m
    → has_hash hash db.receive_tasks ≡ b
    → is_some (Dict.get hash m.by_pending_hash) ≡ b
hash_known hash b db m i e =
    let looked = ap (Dict.get hash) i.hashes ∙ get-by_hash hash db.receive_tasks in
    ground (arith, looked, has_hash-get hash db.receive_tasks, e)

created_states :
    (t : ReceiveTask) (db : Db) (m : Memory)
    → Implements db m
    → IsFresh (creates t) db
    → has_hash t.pending_block_hash db.receive_tasks ≡ false
    → Implements
        (record db { receive_tasks = db.receive_tasks ++ t ∷ [] })
        (record {
          tasks = Dict.set t.id t m.tasks;
          by_pending_hash = Dict.set t.pending_block_hash t.id m.by_pending_hash;
        })
created_states t db m i (fresh, named) free = record {
  tasks = ap (Dict.set t.id t) i.tasks ∙ set-by_id t db.receive_tasks fresh;
  hashes = ap (Dict.set t.pending_block_hash t.id) i.hashes ∙ set-by_hash t db.receive_tasks free;
  distinct = Distinct-append t db.receive_tasks fresh i.distinct;
  named = ground (arith, has_id-append "" db.receive_tasks t, i.named, named);
}

Agree-creates :
    (t : ReceiveTask) (db : Db) (m : Memory)
    → Implements db m
    → IsFresh (creates t) db
    → Agree (step (creates t) db) (step_in_memory (creates t) m)
unfolding step step_in_memory create Tasks.create
Agree-creates t db m i fresh = elim (Bool-cases (has_hash t.pending_block_hash db.receive_tasks)) [
  | inl taken ↦ elim (Option-cases (Dict.get t.pending_block_hash m.by_pending_hash)) [
    | inl missing ↦
        absurd (ground (arith, hash_known t.pending_block_hash true db m i taken, missing))
    | inr (id, known) ↦
        rw (step, Tasks.create, fresh.0, taken, step_in_memory, create, known)
          (record { replies = refl; states = i })
  ]
  | inr free ↦ elim (Option-cases (Dict.get t.pending_block_hash m.by_pending_hash)) [
    | inr (id, known) ↦
        absurd (ground (arith, hash_known t.pending_block_hash false db m i free, known))
    | inl missing ↦
        rw (step, Tasks.create, fresh.0, free, step_in_memory, create, missing)
          (record { replies = refl; states = created_states t db m i fresh free })
  ]
]

updated_states :
    (id : String) (new t : ReceiveTask) (db : Db) (m : Memory)
    → Implements db m
    → Tasks.get id db.receive_tasks ≡ some t
    → new.id ≡ t.id
    → new.pending_block_hash ≡ t.pending_block_hash
    → new.created_at ≡ t.created_at
    → Implements
        (record db { receive_tasks = map (replaced id new) db.receive_tasks })
        (record m { tasks = Dict.set id new m.tasks })
updated_states id new t db m i found same_id same_hash same_time =
    let at : new.id ≡ id = same_id ∙ get-id id db.receive_tasks t found in
    record {
      tasks =
          ap (Dict.set id new) i.tasks
          ∙ set-replaced id new t db.receive_tasks i.distinct found at same_time;
      hashes =
          i.hashes
          ∙ sym (by_hash-replaced id new t db.receive_tasks i.distinct found same_id same_hash);
      distinct = Distinct-replaced id new db.receive_tasks at i.distinct;
      named = has_id-replaced "" id new db.receive_tasks at ∙ i.named;
    }

ap_states :
    (id : String) (new : ReceiveTask) (db : Db) (m : Memory)
    → new.id ≡ id
    → Distinct db.receive_tasks
    → Implements
        (record db { receive_tasks = map (replaced id new) db.receive_tasks })
        (record m { tasks = Dict.set id new m.tasks })
    → Implements
        (record db { receive_tasks = map (replaced new.id new) db.receive_tasks })
        (record m { tasks = Dict.set id new m.tasks })
ap_states id new db m at start i = record {
  tasks = i.tasks ∙ ap (λ k. by_id (map (replaced k new) db.receive_tasks)) (sym at);
  hashes = i.hashes ∙ ap (λ k. by_hash (map (replaced k new) db.receive_tasks)) (sym at);
  distinct = Distinct-replaced new.id new db.receive_tasks refl start;
  named = ap (λ k. has_id "" (map (replaced k new) db.receive_tasks)) at ∙ i.named;
}

Agree-updates :
    (id : String) (patch : Patch) (db : Db) (m : Memory)
    → Implements db m
    → IsFresh (updates id patch) db
    → Agree (step (updates id patch) db) (step_in_memory (updates id patch) m)
unfolding step step_in_memory update Tasks.update
Agree-updates id patch db m i (no_id, no_hash, no_time) =
    let looked = ap (Dict.get id) i.tasks ∙ get-by_id id db.receive_tasks in
    elim (Option-cases (Tasks.get id db.receive_tasks)) [
      | inl missing ↦
          rw (step, Tasks.update, missing, step_in_memory, update, looked, missing)
            (record { replies = refl; states = i })
      | inr (t, found) ↦
          let new = patched patch t in
          let same_id : new.id ≡ t.id = ground (arith, no_id) in
          let alone : clashes patch new db.receive_tasks ≡ false = ground (arith, no_id, no_hash) in
          let at : new.id ≡ id = same_id ∙ get-id id db.receive_tasks t found in
          rw (step, Tasks.update, found, alone, step_in_memory, update, looked, found)
            (record {
              replies = refl;
              states = ap_states id new db m at i.distinct (
                  updated_states id new t db m i found same_id (ground (arith, no_hash))
                    (ground (arith, no_time)));
            })
    ]

Agree-step :
    (c : Call) (db : Db) (m : Memory)
    → Implements db m
    → IsFresh c db
    → Agree (step c db) (step_in_memory c m)
unfolding step step_in_memory
Agree-step (creates t) db m i fresh = Agree-creates t db m i fresh
Agree-step (updates id patch) db m i fresh = Agree-updates id patch db m i fresh
Agree-step (gets id) db m i fresh = record {
  replies = ap task_is (sym (ap (Dict.get id) i.tasks ∙ get-by_id id db.receive_tasks));
  states = i;
}
Agree-step (finds hash) db m i fresh = record {
  replies = ap task_is (sym (Agree-finds hash db m i));
  states = i;
}
Agree-step (lists status) db m i fresh = record {
  replies = ap tasks_are (sym (Agree-lists status db m i));
  states = i;
}

-- So is every call of a sequence when it is made.
abbrev pub AreFresh : List Call → Db → Type 0
AreFresh [] db = Unit {0}
AreFresh (c ∷ cs) db = IsFresh c db × AreFresh cs (step c db).0

-- From a table and maps that have its rows, every sequence of calls on the table of receive tasks
-- is answered like the same calls on the in-memory store, errors told by their being errors, and
-- the maps have the rows of the table again, where the ids that are drawn are not empty and not in
-- use, and no patch has an id, a pending block hash or a time of creation.
pub run-Implements :
    (cs : List Call) (db : Db) (m : Memory)
    → Implements db m
    → AreFresh cs db
    → ((run cs db).1 ≡ (run_in_memory cs m).1) × Implements (run cs db).0 (run_in_memory cs m).0
unfolding run run_in_memory
run-Implements [] db m i fresh = (refl, i)
run-Implements (c ∷ cs) db m i (fresh, rest) =
    let now = Agree-step c db m i fresh in
    let later = run-Implements cs (step c db).0 (step_in_memory c m).0 now.states rest in
    (ground (arith, now.replies, later.0), later.1)
