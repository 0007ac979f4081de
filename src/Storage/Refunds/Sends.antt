-- ===== src/Storage/Refunds/Sends.antt =====
-- `createSqliteSendStore`, and what its updates do to the refunds that the sends carry.
use rai_flow.Prelude.{
  ℕ, ◌≤◌, String, Bool, false, ◌≡◌, Option, none, some, List, [], ◌∷◌, map, ◌==◌, string_eq,
  if◌then◌else◌, find, filter, or_else, arith, eq_iff, inl, inr, Bool-cases, Option-cases, All, leb,
  find-map, ap, holds, ◌∙◌, sym,
}
use mathlib.Core.Option
use rai_flow.Model.{Send, SendSource, SendStatus, send_status_eq}
use rai_flow.Model.Errors.{Result, ok, err, plain, ◌>>=◌}
use rai_flow.Storage.Db.{Db, RefundRow}
use rai_flow.Storage.Refunds.Queue.{send_by_id, insert_send, is_active, counted, refunded_in}
use rai_flow.Storage.Refunds.Reserve.{IsLinked, IsReserved}

unfoldable pub create : Send → Db → Result (Db × Send)
unfolding insert_send
create send db = do db' ← insert_send send db; ok (db', send)

abbrev pub by_block_hash : String → List Send → Option Send
by_block_hash hash = find (λ (s : Send). holds s.block_hash hash)

abbrev pub by_idempotency_key : String → List Send → Option Send
by_idempotency_key key = find (λ (s : Send). s.idempotency_key == key)

insert_newest : Send → List Send → List Send
insert_newest s [] = s ∷ []
insert_newest s (t ∷ ts) =
    let rest = insert_newest s ts in if leb t.created_at s.created_at then s ∷ t ∷ ts else t ∷ rest

-- ORDER BY created_at DESC
newest_first : List Send → List Send
unfolding insert_newest
newest_first [] = []
newest_first (s ∷ ss) = insert_newest s (newest_first ss)

abbrev is_from : String → SendSource → Bool
is_from account_id (SendSource.account id address index) = id == account_id
is_from account_id (SendSource.invoice id address index) = false

unfoldable pub list_by_account : String → List Send → List Send
unfolding newest_first
list_by_account account_id sends =
    newest_first (filter (λ (s : Send). is_from account_id s.source) sends)

unfoldable pub list_by_status : SendStatus → List Send → List Send
unfolding newest_first
list_by_status status sends = newest_first (filter (λ (s : Send). s.status == status) sends)

-- The fields of `Partial<Send>` that the orchestrator and the runtime set; `none` is an absent field.
pub record Patch : Type 0 where
  pub status : SendStatus
  pub block_hash : Option String
  pub published_at : Option ℕ
  pub confirmed_at : Option ℕ

-- `{ ...existing, ...patch }`
abbrev pub patched : Patch → Send → Send
patched patch s = record s {
  status = patch.status;
  block_hash = or_else patch.block_hash s.block_hash;
  published_at = or_else patch.published_at s.published_at;
  confirmed_at = or_else patch.confirmed_at s.confirmed_at;
}

-- UPDATE sends SET … WHERE id = ?
abbrev pub replaced : String → Send → Send → Send
replaced id new s = if s.id == id then new else s

unfoldable pub update : String → Patch → Db → Result (Db × Send)
update id patch db = elim (send_by_id id db.sends) [
  | none ↦ err (plain "Send not found")
  | some existing ↦ ok (
    record db { sends = map (replaced id (patched patch existing)) db.sends },
    patched patch existing,
  )
]

pub send_by_id-id :
    (id : String) (sends : List Send) (s : Send) → send_by_id id sends ≡ some s → s.id ≡ id
send_by_id-id id [] s e = cc
send_by_id-id id (t ∷ sends) s e = ground (arith, eq_iff t.id id, send_by_id-id id sends s)

replaced-id : (id : String) (new s : Send) → new.id ≡ id → (replaced id new s).id ≡ s.id
replaced-id id new s h = elim (Bool-cases (s.id == id)) [
  | inl here ↦ ground (arith, eq_iff s.id id)
  | inr other ↦ ground arith
]

pub send_by_id-replaced :
    (j id : String) (new : Send) (sends : List Send)
    → new.id ≡ id
    → send_by_id j (map (replaced id new) sends) ≡ Option.map (replaced id new) (send_by_id j sends)
send_by_id-replaced j id new sends h =
    find-map (λ (s : Send). s.id == j) (replaced id new) sends
      (λ s. ap (λ (x : String). x == j) (replaced-id id new s h))

IsLinked-replaced :
    (id : String) (new : Send) (sends : List Send) (rows : List RefundRow)
    → new.id ≡ id
    → All (IsLinked sends) rows
    → All (IsLinked (map (replaced id new) sends)) rows
IsLinked-replaced id new sends [] h l = tt
IsLinked-replaced id new sends (r ∷ rows) h (l, ls) = (
  ground (arith, send_by_id-replaced r.send_id id new sends h),
  IsLinked-replaced id new sends rows h ls,
)

-- The send is active before, or not active after.
abbrev pub StaysFailed : SendStatus → SendStatus → Type 0
StaysFailed old new = is_active old ≡ false → is_active new ≡ false

counted-replaced :
    (id : String) (old new : Send) (sends : List Send) (r : RefundRow)
    → send_by_id id sends ≡ some old
    → new.id ≡ id
    → StaysFailed old.status new.status
    → counted (map (replaced id new) sends) r ≤ counted sends r
counted-replaced id old new sends r found h stays =
    elim (Option-cases (send_by_id r.send_id sends)) [
      | inl missing ↦ ground (arith, send_by_id-replaced r.send_id id new sends h)
      | inr (s, known) ↦ elim (Bool-cases (s.id == id)) [
        | inr other ↦ ground (arith, send_by_id-replaced r.send_id id new sends h)
        | inl here ↦
            let at_row : r.send_id ≡ id =
              sym (send_by_id-id r.send_id sends s known) ∙ (eq_iff s.id id).0 here in
            let same : s ≡ old =
              ground (arith, known, found, ap (λ (k : String). send_by_id k sends) at_row) in
            let moved = send_by_id-replaced r.send_id id new sends h in
            let kept : is_active s.status ≡ false → is_active new.status ≡ false =
              λ ended. stays (rw (← same) ended) in
            elim (Bool-cases (is_active s.status)) [
              | inl going ↦ ground (arith, moved)
              | inr ended ↦ let still = kept ended in ground (arith, moved)
            ]
      ]
    ]

refunded_in-replaced :
    (id : String) (old new : Send) (sends : List Send) (deposit_id : String) (rows : List RefundRow)
    → send_by_id id sends ≡ some old
    → new.id ≡ id
    → StaysFailed old.status new.status
    → refunded_in (map (replaced id new) sends) deposit_id rows ≤ refunded_in sends deposit_id rows
refunded_in-replaced id old new sends deposit_id [] found h stays = omega arith
refunded_in-replaced id old new sends deposit_id (r ∷ rows) found h stays =
    let rest = refunded_in-replaced id old new sends deposit_id rows found h stays in
    let here = counted-replaced id old new sends r found h stays in
    elim (Bool-cases (r.deposit_id == deposit_id)) [
      | inl mine ↦ rw mine (omega (arith, rest, here))
      | inr other ↦ rw other rest
    ]

-- Updating a send that exists, by a patch that does not revive a failed one, succeeds, keeps every
-- refund linked to its send, and keeps the refunds of each deposit that have not failed within the
-- amount of the deposit.
pub update-IsReserved :
    (id : String) (patch : Patch) (db : Db) (old : Send)
    → IsReserved db
    → send_by_id id db.sends ≡ some old
    → StaysFailed old.status patch.status
    → (db' : Db) × (update id patch db ≡ ok (db', patched patch old)) × IsReserved db'
unfolding update
update-IsReserved id patch db old inv found stays =
    let new = patched patch old in
    let at : new.id ≡ id = send_by_id-id id db.sends old found in
    (
      record db { sends = map (replaced id new) db.sends },
      ground arith,
      record {
        linked = IsLinked-replaced id new db.sends db.refunds at inv.linked;
        within = λ deposit_id d e.
            let bound = inv.within deposit_id d e in
            let less =
              refunded_in-replaced id old new db.sends deposit_id db.refunds found at stays in
            omega (arith, bound, less);
      },
    )
