-- ===== src/Transfers/Replays.antt =====
-- A request for a send that is made again.
use rai_flow.Prelude.{
  String, Bool, ◌≡◌, refl, none, some, List, [], ◌∷◌, ◌++◌, ◌==◌, string_eq, if◌then◌else◌, any,
  arith, inl, inr, Bool-cases, Option-cases, ==-refl, ap, ◌∙◌,
}
use rai_flow.Model.{Event, Account, Send, SendSource, send_data}
use rai_flow.Model.Errors.{Result, ok, err, coded, conflict, >>=-eq-ok}
use rai_flow.Storage.Db.{Db, append_event}
use rai_flow.Storage.Refunds.Queue.{insert_send, source_exists}
use rai_flow.Storage.Refunds.Sends.{create, by_idempotency_key}
use rai_flow.Transfers.Runtime.{
  Mode, Draws, SendRequest, same_request, replayed_send, earlier_send, new_send, announce,
  queued_event, enqueue_send, send_account, queue_send,
}

-- An announcement leaves the sends and the accounts alone.
announce-sends :
    (draws : Draws) (scope key type id : String) (event : Event) (db : Db)
    → (announce draws scope key type id event db).sends ≡ db.sends
unfolding announce append_event
announce-sends draws scope key type id event db = ground arith

announce-accounts :
    (draws : Draws) (scope key type id : String) (event : Event) (db : Db)
    → (announce draws scope key type id event db).accounts ≡ db.accounts
unfolding announce append_event
announce-accounts draws scope key type id event db = ground arith

by_key-append :
    (key : String) (sends : List Send) (s : Send)
    → by_idempotency_key key sends ≡ none
    → s.idempotency_key ≡ key
    → by_idempotency_key key (sends ++ s ∷ []) ≡ some s
by_key-append key [] s e h = ground (arith, ==-refl key)
by_key-append key (t ∷ sends) s e h = ground (arith, by_key-append key sends s)

earlier_send-none :
    (db : Db) (key : String) → earlier_send db key ≡ none → by_idempotency_key key db.sends ≡ none
unfolding earlier_send
earlier_send-none db key e = ground arith

earlier_send-some :
    (db : Db) (key : String) (s : Send)
    → by_idempotency_key key db.sends ≡ some s
    → earlier_send db key ≡ some s
unfolding earlier_send
earlier_send-some db key s e = rw (earlier_send, e) refl

-- What inserting a send that is taken does.
insert_send-known :
    (send : Send) (db db' : Db)
    → insert_send send db ≡ ok db'
    → by_idempotency_key send.idempotency_key db.sends ≡ none
    → (by_idempotency_key send.idempotency_key db'.sends ≡ some send) × (db'.accounts ≡ db.accounts)
unfolding insert_send
insert_send-known send db db' e fresh =
    let last = by_key-append send.idempotency_key db.sends send fresh refl in
    elim (Bool-cases (any (λ (s : Send). s.id == send.id) db.sends)) [
      | inl taken ↦ absurd (ground (arith, e))
      | inr free ↦
          elim (Bool-cases
            (any (λ (s : Send). s.idempotency_key == send.idempotency_key) db.sends)) [
              | inl taken ↦ absurd (ground (arith, e))
              | inr unused ↦ elim (Bool-cases (source_exists send.source db)) [
                | inr missing ↦ absurd (ground (arith, e))
                | inl there ↦
                    let made : record db { sends = db.sends ++ send ∷ [] } ≡ db' =
                      ground (arith, e) in
                    rw (← made) (last, refl)
              ]
            ]
    ]

-- What a request that was answered leaves behind: the send is the earlier one for every request with
-- the key.
enqueue_send-known :
    (draws : Draws) (account : Account) (request : SendRequest) (db db' : Db) (send : Send)
    → enqueue_send draws account request db ≡ ok (db', send)
    → by_idempotency_key request.idempotency_key db.sends ≡ none
    → (by_idempotency_key request.idempotency_key db'.sends ≡ some send)
      × (db'.accounts ≡ db.accounts)
unfolding enqueue_send create
enqueue_send-known draws account request db db' send e fresh = enqueued (insert_send made db) refl
  where
    made : Send
    made =
        new_send draws (SendSource.account account.id account.address account.derivation_index)
          request.destination request.amount_raw request.idempotency_key

    enqueued :
        (r : Result Db)
        → insert_send made db ≡ r
        → (by_idempotency_key request.idempotency_key db'.sends ≡ some send)
          × (db'.accounts ≡ db.accounts)
    enqueued (err f) at = absurd (ground (arith, at, fresh, e))
    enqueued (ok db1) at =
        let event = queued_event draws made (send_data made) in
        let key = request.idempotency_key in
        let after = announce draws "send.queue" key "send" made.id event db1 in
        let done : ◌≡◌ {A = Result (Db × Send)} (ok (after, made)) (ok (db', send)) =
          ground (arith, at, e) in
        let same_db : after ≡ db' = ground (arith, done) in
        let same_send : made ≡ send = ground (arith, done) in
        let (known, kept) = insert_send-known made db db1 at fresh in
        (
          rw (← same_db, ← same_send)
              (ap (by_idempotency_key key)
                  (announce-sends draws "send.queue" key "send" made.id event db1)
                ∙ known),
          rw (← same_db) (announce-accounts draws "send.queue" key "send" made.id event db1 ∙ kept),
        )

replayed_send-ok :
    (db db' : Db) (s send : Send) (request : SendRequest)
    → replayed_send db s request ≡ ok (db', send)
    → (db ≡ db') × (s ≡ send)
unfolding replayed_send
replayed_send-ok db db' s send request e = elim (Bool-cases (same_request s request)) [
  | inl same ↦ (ground arith, ground arith)
  | inr other ↦ absurd (ground arith)
]

-- What a request that was answered leaves behind: its send is the earlier one for its key.
queue_send-earlier :
    (mode : Mode) (valid_address : String → Bool) (draws : Draws) (request : SendRequest)
    (db db' : Db) (send : Send)
    → queue_send mode valid_address draws request db ≡ ok (db', send)
    → (earlier_send db' request.idempotency_key ≡ some send) × (db'.accounts ≡ db.accounts)
unfolding queue_send
queue_send-earlier mode valid_address draws request db db' send e =
    let (account, allowed, rest) =
      >>=-eq-ok (send_account mode valid_address request db.accounts) _ e in
    elim (Option-cases (earlier_send db request.idempotency_key)) [
      | inr (s, known) ↦
          let again : replayed_send db s request ≡ ok (db', send) = ground (arith, rest, known) in
          let (same_db, same_send) = replayed_send-ok db db' s send request again in
          (rw (← same_db, ← same_send) known, rw (← same_db) refl)
      | inl fresh ↦
          let made : enqueue_send draws account request db ≡ ok (db', send) =
            ground (arith, rest, fresh) in
          let (known, kept) =
            enqueue_send-known draws account request db db' send made
              (earlier_send-none db request.idempotency_key fresh) in
          (earlier_send-some db' request.idempotency_key send known, kept)
    ]

-- After a request for a send is answered, a request with the same key that is allowed in itself
-- changes nothing: it is answered with the send of the first one where it asks for the same, and is
-- refused as a conflict otherwise.
pub queue_send-queue_send :
    (mode : Mode) (valid_address : String → Bool) (draws draws' : Draws)
    (request request' : SendRequest) (db db' : Db) (send : Send) (account : Account)
    → queue_send mode valid_address draws request db ≡ ok (db', send)
    → request'.idempotency_key ≡ request.idempotency_key
    → send_account mode valid_address request' db.accounts ≡ ok account
    → queue_send mode valid_address draws' request' db' ≡ (
        if same_request send request'
        then ok (db', send)
        else err (coded conflict "Idempotency key was already used with a different send request"))
unfolding queue_send replayed_send
queue_send-queue_send mode valid_address draws draws' request request' db db' send account e key
      allowed =
    let (known, kept) = queue_send-earlier mode valid_address draws request db db' send e in
    let found : earlier_send db' request'.idempotency_key ≡ some send =
      ap (earlier_send db') key ∙ known in
    let still : send_account mode valid_address request' db'.accounts ≡ ok account =
      ap (send_account mode valid_address request') kept ∙ allowed in
    rw (queue_send, still, found, replayed_send) refl
