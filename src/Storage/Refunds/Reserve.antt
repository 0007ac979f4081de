-- ===== src/Storage/Refunds/Reserve.antt =====
-- The refunds of a deposit beside its amount.
use rai_flow.Prelude.{
  ◌+◌, ◌≤◌, String, true, false, ◌≡◌, refl, some, List, [], ◌∷◌, ◌++◌, arith, ◌==◌, string_eq,
  if◌then◌else◌, eq_iff, inl, inr, Bool-cases, Option-cases, any, is_some, All, All-append, ==-refl,
}
use mathlib.Core.Path.{subst}
use rai_flow.Model.{Deposit, Refund, Send, send_status_eq}
use rai_flow.Model.Errors.{ok}
use rai_flow.Storage.Db.{Db, RefundRow}
use rai_flow.Storage.Refunds.Queue.{
  QueueResult, send_by_id, deposit_by_id, counted, refunded_in, refunded, insert_send,
  insert_refund, row_of_refund, get_result, reserve, queue, well_matched, refund_by_key,
}

-- Every refund has its send: `send_id … REFERENCES sends(id)`.
abbrev pub IsLinked : List Send → RefundRow → Type 0
IsLinked sends r = is_some (send_by_id r.send_id sends) ≡ true

pub record IsReserved (db : Db) : Type 0 where
  pub linked : All (IsLinked db.sends) db.refunds
  pub within :
      (id : String) (d : Deposit)
      → deposit_by_id id db.deposits ≡ some d
      → refunded_in db.sends id db.refunds ≤ d.amount_raw

-- A new send at the end hides no send.
send_by_id-append :
    (id : String) (sends : List Send) (s : Send)
    → is_some (send_by_id id sends) ≡ true
    → send_by_id id (sends ++ s ∷ []) ≡ send_by_id id sends
send_by_id-append id [] s h = cc
send_by_id-append id (t ∷ sends) s h = ground (arith, send_by_id-append id sends s)

pub send_by_id_new :
    (sends : List Send) (s : Send)
    → any (λ (t : Send). t.id == s.id) sends ≡ false
    → send_by_id s.id (sends ++ s ∷ []) ≡ some s
send_by_id_new [] s h = rw (==-refl s.id)
send_by_id_new (t ∷ sends) s h = ground (arith, send_by_id_new sends s)

IsLinked-after :
    (sends : List Send) (s : Send) (rows : List RefundRow)
    → All (IsLinked sends) rows
    → All (IsLinked (sends ++ s ∷ [])) rows
IsLinked-after sends s [] h = tt
IsLinked-after sends s (r ∷ rows) (h, hs) =
    (rw (send_by_id-append r.send_id sends s h) h, IsLinked-after sends s rows hs)

refunded_in-append_send :
    (sends : List Send) (s : Send) (id : String) (rows : List RefundRow)
    → All (IsLinked sends) rows
    → refunded_in (sends ++ s ∷ []) id rows ≡ refunded_in sends id rows
refunded_in-append_send sends s id [] h = refl
refunded_in-append_send sends s id (r ∷ rows) (h, hs) =
    ground
      (arith, send_by_id-append r.send_id sends s h, refunded_in-append_send sends s id rows hs)

refunded_in-append :
    (sends : List Send) (id : String) (rows : List RefundRow) (r : RefundRow)
    → refunded_in sends id (rows ++ r ∷ [])
      ≡ refunded_in sends id rows + (if r.deposit_id == id then counted sends r else 0)
refunded_in-append sends id [] r = ground arith
refunded_in-append sends id (q ∷ rows) r = ground (arith, refunded_in-append sends id rows r)

-- What a transaction that reserves an amount has done.
pub record Reserved (db db' : Db) (deposit : Deposit) (refund : Refund) (send : Send) : Type 0 where
  pub stored : Deposit
  pub found : deposit_by_id deposit.id db.deposits ≡ some stored
  pub room : refunded deposit.id db + refund.amount_raw ≤ stored.amount_raw
  pub new_send : any (λ (s : Send). s.id == send.id) db.sends ≡ false
  pub sends : db'.sends ≡ db.sends ++ send ∷ []
  pub refunds : db'.refunds ≡ db.refunds ++ row_of_refund deposit refund send ∷ []
  pub deposits : db'.deposits ≡ db.deposits

pub reserve-Reserved :
    (db db' : Db) (deposit : Deposit) (refund : Refund) (send : Send) (r : QueueResult)
    → reserve db deposit refund send ≡ ok (db', r)
    → Reserved db db' deposit refund send
unfolding reserve insert_send insert_refund get_result
reserve-Reserved db db' deposit refund send r e =
    elim (Option-cases (deposit_by_id deposit.id db.deposits)) [
      | inl missing ↦ absurd (ground arith)
      | inr (stored, found) ↦ record {
        stored = stored;
        found = found;
        room = ground arith;
        new_send = ground arith;
        sends = ground arith;
        refunds = ground arith;
        deposits = ground arith;
      }
    ]

Reserved-IsReserved :
    (db db' : Db) (deposit : Deposit) (refund : Refund) (send : Send)
    → IsReserved db
    → Reserved db db' deposit refund send
    → refund.send_id ≡ send.id
    → IsReserved db'
unfolding refunded
Reserved-IsReserved db db' deposit refund send inv done same_id = record {
  linked =
      rw (done.sends, done.refunds)
        (All-append _ db.refunds _ (IsLinked-after db.sends send db.refunds inv.linked)
          (ground (arith, send_by_id_new db.sends send done.new_send), tt));
  within = λ id d e. rw (done.sends, done.refunds) (within_after id d (rw done.deposits at e));
}
  where
    row : RefundRow
    row = row_of_refund deposit refund send

    within_after :
        (id : String) (d : Deposit)
        → deposit_by_id id db.deposits ≡ some d
        → refunded_in (db.sends ++ send ∷ []) id (db.refunds ++ row ∷ []) ≤ d.amount_raw
    within_after id d e = elim (Bool-cases (deposit.id == id)) [
      | inl here ↦
          subst
            (λ (k : String).
              refunded_in (db.sends ++ send ∷ []) k (db.refunds ++ row ∷ []) ≤ d.amount_raw)
            ((eq_iff deposit.id id).0 here)
            (ground (
              arith,
              done.room,
              done.found,
              eq_iff deposit.id id,
              refunded_in-append (db.sends ++ send ∷ []) deposit.id db.refunds row,
              refunded_in-append_send db.sends send deposit.id db.refunds inv.linked,
            ))
      | inr other ↦ ground (
        arith,
        inv.within id d e,
        refunded_in-append (db.sends ++ send ∷ []) id db.refunds row,
        refunded_in-append_send db.sends send id db.refunds inv.linked,
      )
    ]

well_matched-send_id :
    (deposit : Deposit) (refund : Refund) (send : Send)
    → well_matched deposit refund send ≡ true
    → refund.send_id ≡ send.id
unfolding well_matched
well_matched-send_id deposit refund send h = ground (arith, eq_iff refund.send_id send.id)

-- Queueing a refund keeps every refund linked to its send, and keeps what the refunds of each
-- deposit that have not failed add up to within the amount of the deposit.
pub queue-IsReserved :
    (db db' : Db) (deposit : Deposit) (refund : Refund) (send : Send) (r : QueueResult)
    → IsReserved db
    → queue db deposit refund send ≡ ok (db', r)
    → IsReserved db'
unfolding queue
queue-IsReserved db db' deposit refund send r inv e =
    elim (Bool-cases (well_matched deposit refund send)) [
      | inr refused ↦ absurd (ground arith)
      | inl fits ↦
          elim (Option-cases (refund_by_key deposit.id refund.idempotency_key db.refunds)) [
            | inr (row, known) ↦ let same : db ≡ db' = ground arith in subst IsReserved same inv
            | inl new_key ↦
                let made : reserve db deposit refund send ≡ ok (db', r) = ground arith in
                Reserved-IsReserved db db' deposit refund send inv
                  (reserve-Reserved db db' deposit refund send r made)
                  (well_matched-send_id deposit refund send fits)
          ]
    ]
