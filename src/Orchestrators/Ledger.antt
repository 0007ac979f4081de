-- ===== src/Orchestrators/Ledger.antt =====
-- The intents of an orchestrator beside the blocks that it has handed to the node.
use rai_flow.Prelude.{
  ℕ, String, ◌≡◌, refl, Option, none, some, List, [], ◌∷◌, map, ◌==◌, string_eq, if◌then◌else◌, any,
  arith, eq_iff, inl, inr, Bool-cases, Option-cases, All, All-append,
}
use rai_flow.Intents.Store.{
  Intent, get, Call, creates, updates, gets, step, run, create_if_absent, update_work, is_target,
}
use rai_flow.Intents.FirstWins.{step-Keeps}
use rai_flow.Orchestrators.World.{gives, Outside, Request, Signed, Broadcast}
use rai_flow.Orchestrators.Hoare.{Pred, IsStable, IsApart}

-- The hash in the JSON of an intent is the hash that it is stored with.
abbrev pub IsGood : (String → String) → Intent → Type 0
IsGood hash_of i = hash_of i.block_json ≡ i.block_hash

abbrev pub hash_for : String → List Intent → Option String
hash_for id rows = elim (get id rows) [ none ↦ none | some i ↦ some i.block_hash ]

-- A broadcast is the block of the intent that is stored for its owner.
abbrev pub IsOf : (String → String) → List Intent → Broadcast → Type 0
IsOf hash_of rows b = hash_for b.owner_id rows ≡ some (hash_of b.block_json)

pub record IsSound (hash_of : String → String) (rows : List Intent) (sent : List Broadcast)
    : Type 0 where
  pub stored : All (IsGood hash_of) rows
  pub known : All (IsOf hash_of rows) sent

abbrev pub IsHonestCall : (String → String) → Call → Type 0
IsHonestCall hash_of (creates owners i) = IsGood hash_of i
IsHonestCall hash_of (updates owner_id block_hash block_json) = hash_of block_json ≡ block_hash
IsHonestCall hash_of (gets owner_id) = Unit {0}

-- What the node and the engine are taken to do: `hash_of` is the hash of a block, which does not look
-- at its work; the engine answers with the hash of what it has signed; and the other orchestrators
-- store blocks under their hash.
pub record IsHonest (o : Outside) (hash_of : String → String) : Type 0 where
  pub signs :
      (k : ℕ) (r : Request) (s : Signed) → o.sign k r ≡ gives s → hash_of s.contents ≡ s.hash
  pub works :
      (json block work : String)
      → o.parse json ≡ gives block
      → hash_of (o.with_work block work) ≡ hash_of json
  pub others : (k : ℕ) → All (IsHonestCall hash_of) (o.others k)

pub hash_for-step :
    (c : Call) (id hash : String) (rows : List Intent)
    → hash_for id rows ≡ some hash
    → hash_for id (step c rows).0 ≡ some hash
hash_for-step c id hash rows h = elim (Option-cases (get id rows)) [
  | inl missing ↦ ground arith
  | inr (i, e) ↦
      let (j, e', same) =
        step-Keeps c id i rows
          (i, e, record { block_hash = refl; frontier = refl; resulting_balance_raw = refl }) in
      ground (arith, same.block_hash)
]

IsOf-step :
    (hash_of : String → String) (c : Call) (rows : List Intent) (sent : List Broadcast)
    → All (IsOf hash_of rows) sent
    → All (IsOf hash_of (step c rows).0) sent
IsOf-step hash_of c rows [] h = tt
IsOf-step hash_of c rows (b ∷ sent) (h, hs) =
    (hash_for-step c b.owner_id (hash_of b.block_json) rows h, IsOf-step hash_of c rows sent hs)

IsGood-rework :
    (hash_of : String → String) (owner hash json : String) (rows : List Intent)
    → hash_of json ≡ hash
    → All (IsGood hash_of) rows
    → All (IsGood hash_of) (
        map
          (λ (i : Intent). if is_target owner hash i then record i { block_json = json } else i)
          rows)
IsGood-rework hash_of owner hash json [] e h = tt
IsGood-rework hash_of owner hash json (i ∷ rows) e (h, hs) =
    (ground (arith, eq_iff i.block_hash hash), IsGood-rework hash_of owner hash json rows e hs)

IsGood-step :
    (hash_of : String → String) (c : Call) (rows : List Intent)
    → IsHonestCall hash_of c
    → All (IsGood hash_of) rows
    → All (IsGood hash_of) (step c rows).0
unfolding step create_if_absent update_work
IsGood-step hash_of (creates owners i) rows e h =
    elim (Bool-cases (any (λ (k : Intent). k.owner_id == i.owner_id) rows)) [
      | inl seen ↦ rw seen h
      | inr fresh ↦ elim (Bool-cases (any (λ id. id == i.owner_id) owners)) [
        | inl owned ↦ rw (fresh, owned) (All-append _ rows (i ∷ []) h (e, tt))
        | inr missing ↦ rw (fresh, missing) h
      ]
    ]
IsGood-step hash_of (gets owner) rows e h = h
IsGood-step hash_of (updates owner hash json) rows e h =
    IsGood-rework hash_of owner hash json rows e h

pub IsSound-step :
    (hash_of : String → String) (c : Call) (rows : List Intent) (sent : List Broadcast)
    → IsHonestCall hash_of c
    → IsSound hash_of rows sent
    → IsSound hash_of (step c rows).0 sent
IsSound-step hash_of c rows sent e s = record {
  stored = IsGood-step hash_of c rows e s.stored;
  known = IsOf-step hash_of c rows sent s.known;
}

IsSound-run :
    (hash_of : String → String) (cs : List Call) (rows : List Intent) (sent : List Broadcast)
    → All (IsHonestCall hash_of) cs
    → IsSound hash_of rows sent
    → IsSound hash_of (run cs rows).0 sent
unfolding run
IsSound-run hash_of [] rows sent e s = s
IsSound-run hash_of (c ∷ cs) rows sent (e, es) s =
    IsSound-run hash_of cs (step c rows).0 sent es (IsSound-step hash_of c rows sent e s)

hash_for-run :
    (cs : List Call) (id hash : String) (rows : List Intent)
    → hash_for id rows ≡ some hash
    → hash_for id (run cs rows).0 ≡ some hash
unfolding run
hash_for-run [] id hash rows h = h
hash_for-run (c ∷ cs) id hash rows h =
    hash_for-run cs id hash (step c rows).0 (hash_for-step c id hash rows h)

abbrev pub Sound : (String → String) → Pred
Sound hash_of w = IsSound hash_of w.intents w.broadcasts

-- Sound, with the hash of the block that is stored for an id.
abbrev pub SoundFor : (String → String) → String → String → Pred
SoundFor hash_of id hash w = Sound hash_of w × (hash_for id w.intents ≡ some hash)

pub Sound-IsStable :
    {o : Outside} {hash_of : String → String} → IsHonest o hash_of → IsStable o (Sound hash_of)
Sound-IsStable {o} {hash_of} honest = record {
  keeps = λ w s.
      IsSound-run hash_of (o.others w.calls) w.intents w.broadcasts (honest.others w.calls) s;
}

pub SoundFor-IsStable :
    {o : Outside} {hash_of : String → String} (id hash : String)
    → IsHonest o hash_of
    → IsStable o (SoundFor hash_of id hash)
SoundFor-IsStable {o} {hash_of} id hash honest = record {
  keeps = λ w s.
      ((Sound-IsStable honest).keeps w s.0, hash_for-run (o.others w.calls) id hash w.intents s.1);
}

pub Sound-IsApart : {hash_of : String → String} → IsApart (Sound hash_of)
Sound-IsApart w db s = s

pub SoundFor-IsApart :
    {hash_of : String → String} (id hash : String) → IsApart (SoundFor hash_of id hash)
SoundFor-IsApart id hash w db s = s

-- The row that is found for an id, and what its JSON says.
pub record IsStored (hash_of : String → String) (id : String) (i : Intent) : Type 0 where
  pub owner : i.owner_id ≡ id
  pub good : hash_of i.block_json ≡ i.block_hash

pub get-IsStored :
    (hash_of : String → String) (id : String) (i : Intent) (rows : List Intent)
    → All (IsGood hash_of) rows
    → get id rows ≡ some i
    → IsStored hash_of id i
get-IsStored hash_of id i [] h e = cc
get-IsStored hash_of id i (r ∷ rows) (h, hs) e = elim (Bool-cases (r.owner_id == id)) [
  | inl here ↦
      let at = (eq_iff r.owner_id id).0 here in record { owner = ground arith; good = ground arith }
  | inr other ↦ get-IsStored hash_of id i rows hs (ground arith)
]
