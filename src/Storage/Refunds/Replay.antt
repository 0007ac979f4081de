-- ===== src/Storage/Refunds/Replay.antt =====
-- A refund key that is used again.
use rai_flow.Prelude.{
  String, true, false, ◌≡◌, ◌≢◌, refl, none, some, List, [], ◌∷◌, ◌++◌, arith, string_eq, nat_eq,
  eq_iff, ◌⊎◌, inl, inr, Bool-cases, Option-cases,
}
use mathlib.Core.Path.{subst}
use rai_flow.Model.{Deposit, Refund, Send, source_address, send_status_eq}
use rai_flow.Model.Errors.{ok, err, plain}
use rai_flow.Storage.Db.{Db, RefundRow}
use rai_flow.Storage.Refunds.Queue.{
  QueueResult, send_by_id, insert_send, insert_refund, row_of_refund, row_to_refund, get_result,
  reserve, replay, queue, well_matched, refund_by_key,
}
use rai_flow.Storage.Refunds.Reserve.{reserve-Reserved, send_by_id_new}

refund_by_key_new :
    (deposit_id key : String) (rows : List RefundRow) (row : RefundRow)
    → refund_by_key deposit_id key rows ≡ none
    → row.deposit_id ≡ deposit_id
    → row.idempotency_key ≡ key
    → refund_by_key deposit_id key (rows ++ row ∷ []) ≡ some row
refund_by_key_new deposit_id key [] row h p q =
    ground (arith, eq_iff row.deposit_id deposit_id, eq_iff row.idempotency_key key)
refund_by_key_new deposit_id key (r ∷ rows) row h p q =
    ground (arith, refund_by_key_new deposit_id key rows row)

-- The row of a key, and the send that goes with it.
record Holds (db : Db) (deposit : Deposit) (refund : Refund) (r : QueueResult) : Type 0 where
  row : RefundRow
  known : refund_by_key deposit.id refund.idempotency_key db.refunds ≡ some row
  send : send_by_id row.send_id db.sends ≡ some r.send
  shown : r.refund ≡ row_to_refund row r.send
  address : source_address r.send.source ≡ deposit.recipient_account
  destination : row.destination ≡ refund.destination
  amount : row.amount_raw ≡ refund.amount_raw

well_matched-address :
    (deposit : Deposit) (refund : Refund) (send : Send)
    → well_matched deposit refund send ≡ true
    → (source_address send.source ≡ deposit.recipient_account) × (refund.send_id ≡ send.id)
unfolding well_matched
well_matched-address deposit refund send h = (
  ground (arith, eq_iff (source_address send.source) deposit.recipient_account),
  ground (arith, eq_iff refund.send_id send.id),
)

reserve-Holds :
    (db db' : Db) (deposit : Deposit) (refund : Refund) (send : Send) (r : QueueResult)
    → well_matched deposit refund send ≡ true
    → refund_by_key deposit.id refund.idempotency_key db.refunds ≡ none
    → reserve db deposit refund send ≡ ok (db', r)
    → Holds db' deposit refund r
unfolding reserve insert_send insert_refund get_result
reserve-Holds db db' deposit refund send r fits new_key e =
    let done = reserve-Reserved db db' deposit refund send r e in
    let (address, same_id) = well_matched-address deposit refund send fits in
    let found = send_by_id_new db.sends send done.new_send in
    let row : RefundRow = row_of_refund deposit refund send in
    let is_send : r.send ≡ send = ground (arith, done.found, found) in
    record {
      row = row;
      known =
          rw done.refunds
            (refund_by_key_new deposit.id refund.idempotency_key db.refunds row new_key refl refl);
      send = rw (done.sends, is_send) found;
      shown = ground (arith, done.found, found);
      address = rw is_send address;
      destination = refl;
      amount = refl;
    }

replay-Holds :
    (db : Db) (deposit : Deposit) (refund : Refund) (send : Send) (row : RefundRow)
    (r : QueueResult)
    → well_matched deposit refund send ≡ true
    → refund_by_key deposit.id refund.idempotency_key db.refunds ≡ some row
    → replay db refund send row ≡ ok r
    → Holds db deposit refund r
unfolding replay get_result
replay-Holds db deposit refund send row r fits known e =
    elim (Option-cases (send_by_id row.send_id db.sends)) [
      | inl missing ↦ absurd (ground arith)
      | inr (s, found) ↦
          let (address, same_id) = well_matched-address deposit refund send fits in
          let is_send : r.send ≡ s =
            ground (arith, eq_iff (source_address s.source) (source_address send.source)) in
          record {
            row = row;
            known = known;
            send = rw is_send found;
            shown = ground arith;
            address = ground (arith, eq_iff (source_address s.source) (source_address send.source));
            destination = ground (arith, eq_iff row.destination refund.destination);
            amount = ground arith;
          }
    ]

queue-Holds :
    (db db' : Db) (deposit : Deposit) (refund : Refund) (send : Send) (r : QueueResult)
    → queue db deposit refund send ≡ ok (db', r)
    → Holds db' deposit refund r
unfolding queue
queue-Holds db db' deposit refund send r e = elim (Bool-cases (well_matched deposit refund send)) [
  | inr refused ↦ absurd (ground arith)
  | inl fits ↦ elim (Option-cases (refund_by_key deposit.id refund.idempotency_key db.refunds)) [
    | inr (row, known) ↦
        let same : db ≡ db' = ground arith in
        let again : replay db refund send row ≡ ok r = ground arith in
        subst (λ (x : Db). Holds x deposit refund r) same
          (replay-Holds db deposit refund send row r fits known again)
    | inl new_key ↦ reserve-Holds db db' deposit refund send r fits new_key (ground arith)
  ]
]

-- Queueing a refund of a deposit again under its key, for the same amount and destination, changes
-- nothing and returns the refund and the send of the first time, marked as not created; for another
-- amount or destination it is refused.
pub queue-queue :
    (db db' : Db) (deposit : Deposit) (refund refund' : Refund) (send send' : Send)
    (r : QueueResult)
    → queue db deposit refund send ≡ ok (db', r)
    → well_matched deposit refund' send' ≡ true
    → refund'.idempotency_key ≡ refund.idempotency_key
    → ((refund'.amount_raw ≡ refund.amount_raw)
        → (refund'.destination ≡ refund.destination)
        → queue db' deposit refund' send' ≡ ok (db', record r { created = false }))
      × ((refund'.amount_raw ≢ refund.amount_raw) ⊎ (refund'.destination ≢ refund.destination)
          → queue db' deposit refund' send'
            ≡ err (plain "Refund idempotency key was reused with different parameters"))
unfolding queue replay get_result
queue-queue db db' deposit refund refund' send send' r e fits key =
    let held = queue-Holds db db' deposit refund send r e in
    let (address, same_id) = well_matched-address deposit refund' send' fits in
    let known : refund_by_key deposit.id refund'.idempotency_key db'.refunds ≡ some held.row =
      rw key held.known in
    (
      λ amount destination.
          rw (fits, known)
            (ground (
              arith,
              held.send,
              held.shown,
              held.destination,
              held.amount,
              held.address,
              eq_iff held.row.destination refund'.destination,
              eq_iff (source_address r.send.source) (source_address send'.source),
            )),
      λ differ.
          rw (fits, known)
            (ground (
              arith,
              held.destination,
              held.amount,
              eq_iff held.row.destination refund'.destination,
            )),
    )
