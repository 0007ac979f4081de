-- ===== src/Orchestrators/TaskMaps.antt =====
-- The two maps of the in-memory store of receive tasks, made from the rows of the table.
use rai_flow.Prelude.{
  String, Bool, true, false, ◌≡◌, refl, none, some, List, [], ◌∷◌, ◌++◌, map, ◌==◌, string_eq,
  if◌then◌else◌, any, arith, eq_iff, inl, inr, Bool-cases, ==-refl, ap, ◌⊎◌, ◌∙◌, sym, is_some,
}
use rai_flow.Prelude.Dict
use rai_flow.Prelude.Dict.{Dict, values}
use rai_flow.Model.{ReceiveTask, task_status_eq}
use rai_flow.Orchestrators.Tasks.{Patch, patched, replaced}
use rai_flow.Orchestrators.Tasks as Tasks

abbrev pub by_id : List ReceiveTask → Dict String ReceiveTask
by_id = map (λ (t : ReceiveTask). (t.id, t))

abbrev pub by_hash : List ReceiveTask → Dict String String
by_hash = map (λ (t : ReceiveTask). (t.pending_block_hash, t.id))

abbrev pub has_id : String → List ReceiveTask → Bool
has_id id = any (λ (t : ReceiveTask). t.id == id)

abbrev pub has_hash : String → List ReceiveTask → Bool
has_hash hash = any (λ (t : ReceiveTask). t.pending_block_hash == hash)

abbrev pub Distinct : List ReceiveTask → Type 0
Distinct [] = Unit {0}
Distinct (t ∷ ts) = (has_id t.id ts ≡ false) × Distinct ts

pub get-by_id :
    (id : String) (rows : List ReceiveTask) → Dict.get id (by_id rows) ≡ Tasks.get id rows
unfolding Dict.get
get-by_id id [] = refl
get-by_id id (t ∷ rows) = ground (arith, get-by_id id rows)

pub get-by_hash :
    (hash : String) (rows : List ReceiveTask)
    → Dict.get hash (by_hash rows)
      ≡ elim (Tasks.get_by_pending_block_hash hash rows) [ none ↦ none | some t ↦ some t.id ]
unfolding Dict.get
get-by_hash hash [] = refl
get-by_hash hash (t ∷ rows) = ground (arith, get-by_hash hash rows)

-- A new key goes to the end.
pub set-by_id :
    (t : ReceiveTask) (rows : List ReceiveTask)
    → has_id t.id rows ≡ false
    → Dict.set t.id t (by_id rows) ≡ by_id (rows ++ t ∷ [])
unfolding Dict.set
set-by_id t [] h = refl
set-by_id t (u ∷ rows) h = ground (arith, set-by_id t rows)

pub set-by_hash :
    (t : ReceiveTask) (rows : List ReceiveTask)
    → has_hash t.pending_block_hash rows ≡ false
    → Dict.set t.pending_block_hash t.id (by_hash rows) ≡ by_hash (rows ++ t ∷ [])
unfolding Dict.set
set-by_hash t [] h = refl
set-by_hash t (u ∷ rows) h = ground (arith, set-by_hash t rows)

-- A known key keeps its place.
replaced-absent :
    (id : String) (new : ReceiveTask) (rows : List ReceiveTask)
    → has_id id rows ≡ false
    → map (replaced id new) rows ≡ rows
replaced-absent id new [] h = refl
replaced-absent id new (t ∷ rows) h = ground (arith, replaced-absent id new rows)

pub set-replaced :
    (id : String) (new t : ReceiveTask) (rows : List ReceiveTask)
    → Distinct rows
    → Tasks.get id rows ≡ some t
    → new.id ≡ id
    → new.created_at ≡ t.created_at
    → Dict.set id new (by_id rows) ≡ by_id (map (replaced id new) rows)
unfolding Dict.set
set-replaced id new t [] d e h c = cc
set-replaced id new t (u ∷ rows) (d, ds) e h c = elim (Bool-cases (u.id == id)) [
  | inl here ↦
      let same = (eq_iff u.id id).0 here in
      let rest = replaced-absent id new rows (ap (λ k. has_id k rows) (sym same) ∙ d) in
      let found : u ≡ t = ground (arith, e, here) in
      let at : record new { created_at = u.created_at } ≡ new =
        ap (λ k. record new { created_at = k })
          (ap (λ (v : ReceiveTask). v.created_at) found ∙ sym c) in
      ground (arith, rest, same, here, at)
  | inr other ↦ ground (arith, set-replaced id new t rows ds, other)
]

pub has_id-get :
    (id : String) (rows : List ReceiveTask) → has_id id rows ≡ is_some (Tasks.get id rows)
has_id-get id [] = refl
has_id-get id (t ∷ rows) = ground (arith, has_id-get id rows)

pub has_hash-get :
    (hash : String) (rows : List ReceiveTask)
    → has_hash hash rows ≡ is_some (Tasks.get_by_pending_block_hash hash rows)
has_hash-get hash [] = refl
has_hash-get hash (t ∷ rows) = ground (arith, has_hash-get hash rows)

pub has_id-replaced :
    (k id : String) (new : ReceiveTask) (rows : List ReceiveTask)
    → new.id ≡ id
    → has_id k (map (replaced id new) rows) ≡ has_id k rows
has_id-replaced k id new [] h = refl
has_id-replaced k id new (t ∷ rows) h = elim (Bool-cases (t.id == id)) [
  | inl here ↦
      let same : new.id ≡ t.id = h ∙ sym ((eq_iff t.id id).0 here) in
      ground (arith, has_id-replaced k id new rows h, here, same)
  | inr other ↦ ground (arith, has_id-replaced k id new rows h, other)
]

pub Distinct-replaced :
    (id : String) (new : ReceiveTask) (rows : List ReceiveTask)
    → new.id ≡ id
    → Distinct rows
    → Distinct (map (replaced id new) rows)
Distinct-replaced id new [] h d = tt
Distinct-replaced id new (t ∷ rows) h (d, ds) =
    (kept (Bool-cases (t.id == id)), Distinct-replaced id new rows h ds)
  where
    kept :
        ((t.id == id) ≡ true) ⊎ ((t.id == id) ≡ false)
        → has_id (replaced id new t).id (map (replaced id new) rows) ≡ false
    kept (inl here) =
        let same : new.id ≡ t.id = h ∙ sym ((eq_iff t.id id).0 here) in
        rw here (has_id-replaced new.id id new rows h ∙ ap (λ k. has_id k rows) same ∙ d)
    kept (inr other) = rw other (has_id-replaced t.id id new rows h ∙ d)

pub has_id-append :
    (k : String) (rows : List ReceiveTask) (t : ReceiveTask)
    → has_id k (rows ++ t ∷ []) ≡ (if has_id k rows then true else t.id == k)
has_id-append k [] t = ground arith
has_id-append k (u ∷ rows) t = ground (arith, has_id-append k rows t)

pub Distinct-append :
    (t : ReceiveTask) (rows : List ReceiveTask)
    → has_id t.id rows ≡ false
    → Distinct rows
    → Distinct (rows ++ t ∷ [])
Distinct-append t [] h d = (refl, tt)
Distinct-append t (u ∷ rows) h (d, ds) = (
  ground (arith, has_id-append u.id rows t, d, h, eq_iff t.id u.id, eq_iff u.id t.id),
  Distinct-append t rows (ground (arith, h)) ds,
)

-- An update changes neither the ids nor the hashes.
pub by_hash-replaced :
    (id : String) (new t : ReceiveTask) (rows : List ReceiveTask)
    → Distinct rows
    → Tasks.get id rows ≡ some t
    → new.id ≡ t.id
    → new.pending_block_hash ≡ t.pending_block_hash
    → by_hash (map (replaced id new) rows) ≡ by_hash rows
by_hash-replaced id new t [] d e h k = cc
by_hash-replaced id new t (u ∷ rows) (d, ds) e h k = elim (Bool-cases (u.id == id)) [
  | inl here ↦
      let same = (eq_iff u.id id).0 here in
      let rest = replaced-absent id new rows (ap (λ j. has_id j rows) (sym same) ∙ d) in
      let found : u ≡ t = ground (arith, e, here) in ground (arith, rest, here, h, k, found)
  | inr other ↦ ground (arith, by_hash-replaced id new t rows ds, other)
]

pub get-id :
    (id : String) (rows : List ReceiveTask) (t : ReceiveTask)
    → Tasks.get id rows ≡ some t
    → t.id ≡ id
get-id id [] t e = cc
get-id id (r ∷ rows) t e = ground (arith, eq_iff r.id id, get-id id rows t)

-- What is found by a hash is found by its id.
pub get-found :
    (hash : String) (t : ReceiveTask) (rows : List ReceiveTask)
    → Distinct rows
    → Tasks.get_by_pending_block_hash hash rows ≡ some t
    → Tasks.get t.id rows ≡ some t
get-found hash t [] d e = cc
get-found hash t (u ∷ rows) (d, ds) e = elim (Bool-cases (u.pending_block_hash == hash)) [
  | inl here ↦
      let same : u ≡ t = ground (arith, e, here) in rw (← same) (ground (arith, ==-refl u.id))
  | inr other ↦
      let rest = get-found hash t rows ds (ground (arith, e, other)) in
      let present : has_id t.id rows ≡ true = has_id-get t.id rows ∙ ap is_some rest in
      elim (Bool-cases (u.id == t.id)) [
        | inl twice ↦
            let same = (eq_iff u.id t.id).0 twice in
            absurd (ground (arith, d, ap (λ k. has_id k rows) same, present))
        | inr apart ↦ rw apart rest
      ]
]

pub values-by_id : (rows : List ReceiveTask) → values (by_id rows) ≡ rows
values-by_id [] = refl
values-by_id (t ∷ rows) = ap (λ ts. t ∷ ts) (values-by_id rows)
