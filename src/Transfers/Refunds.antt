-- ===== src/Transfers/Refunds.antt =====
-- A request for a refund, on top of the transaction of the refund store.
use Prim.Native.String.{◌++◌}
use rai_flow.Prelude.{String, Bool, ◌≡◌, refl, ◌==◌, string_eq, any, arith, inl, inr, Bool-cases}
use mathlib.Core.Path.{subst}
use rai_flow.Model.{Deposit, Event, Refund, refund_data}
use rai_flow.Model.Errors.{Result, ok, err, >>=-eq-ok}
use rai_flow.Storage.Db.{Db, append_event}
use rai_flow.Storage.Refunds.Queue.{QueueResult}
use rai_flow.Storage.Refunds.Reserve.{IsReserved, queue-IsReserved}
use rai_flow.Transfers.Runtime.{
  Mode, Draws, RefundRequest, announce, finish_refund, refund_deposit, refund_source, queued_event,
  queue_refund,
}

append_event-IsReserved :
    (uuid : String → String) (event : Event) (db : Db)
    → IsReserved db
    → IsReserved (append_event uuid event db).0
unfolding append_event
append_event-IsReserved uuid event db inv =
    elim (Bool-cases (any (λ (e : Event). e.id == event.id) db.events)) [
      | inl seen ↦ rw (append_event, seen) inv
      | inr fresh ↦ rw (append_event, fresh) (record { linked = inv.linked; within = inv.within })
    ]

announce-IsReserved :
    (draws : Draws) (scope key type id : String) (event : Event) (db : Db)
    → IsReserved db
    → IsReserved (announce draws scope key type id event db)
unfolding announce
announce-IsReserved draws scope key type id event db inv =
    append_event-IsReserved (draws.job_uuid event.id) event _
      (record { linked = inv.linked; within = inv.within })

finish_refund-IsReserved :
    (draws : Draws) (deposit : Deposit) (request : RefundRequest)
    (outcome : Result (Db × QueueResult)) (db' : Db) (refund : Refund)
    → ((db : Db) (r : QueueResult) → outcome ≡ ok (db, r) → IsReserved db)
    → finish_refund draws deposit request outcome ≡ ok (db', refund)
    → IsReserved db'
unfolding finish_refund
finish_refund-IsReserved draws deposit request (err f) db' refund inv e = absurd (ground arith)
finish_refund-IsReserved draws deposit request (ok (db, r)) db' refund inv e =
    elim (Bool-cases r.created) [
      | inr replayed ↦
          let same : db ≡ db' = ground (arith, e, replayed) in subst IsReserved same (inv db r refl)
      | inl created ↦
          let after =
            announce draws "refund.create" (deposit.id ++ ":" ++ request.idempotency_key) "refund"
              r.refund.id (queued_event draws r.send (refund_data r.send r.refund)) db in
          let same : after ≡ db' = ground (arith, e, created) in
          subst IsReserved same (announce-IsReserved draws _ _ _ _ _ db (inv db r refl))
    ]

-- Answering a request for a refund keeps every refund linked to its send, and keeps what the refunds
-- of each deposit that have not failed add up to within the amount of the deposit.
pub queue_refund-IsReserved :
    (mode : Mode) (valid_address is_blank : String → Bool) (draws : Draws) (request : RefundRequest)
    (db db' : Db) (refund : Refund)
    → IsReserved db
    → queue_refund mode valid_address is_blank draws request db ≡ ok (db', refund)
    → IsReserved db'
unfolding queue_refund
queue_refund-IsReserved mode valid_address is_blank draws request db db' refund inv e =
    let (deposit, allowed, e1) =
      >>=-eq-ok (refund_deposit mode valid_address is_blank request db.deposits) _ e in
    let (source, from, e2) = >>=-eq-ok (refund_source deposit db) _ e1 in
    finish_refund-IsReserved draws deposit request _ db' refund
      (λ db1 r queued. queue-IsReserved db db1 deposit _ _ r inv queued) e2
