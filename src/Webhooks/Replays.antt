-- ===== src/Webhooks/Replays.antt =====
-- Repeated requests for a webhook endpoint.
use rai_flow.Prelude.{
  ℕ, String, false, ◌≡◌, ◌∙◌, none, some, List, [], ◌∷◌, ◌++◌, ◌==◌, string_eq, arith, inl, inr,
  Bool-cases, Option-cases, ==-refl, any,
}
use rai_flow.Model.{WebhookEndpoint}
use rai_flow.Model.Errors.{Result, ok}
use rai_flow.Storage.Db.{Db}
use rai_flow.Idempotency.Store as Keys
use rai_flow.Invoices.Cancel.{get-put_new}
use rai_flow.Webhooks.Endpoints.{
  Input, Draws, get, new_endpoint, create, replay, remember, create_new, earlier_endpoint,
  create_webhook_endpoint,
}

-- An endpoint stored under a new id is found under it.
get-appended :
    (w : WebhookEndpoint) (rows : List WebhookEndpoint)
    → any (λ (v : WebhookEndpoint). v.id == w.id) rows ≡ false
    → get w.id (rows ++ w ∷ []) ≡ some w
get-appended w [] h = ground (arith, ==-refl w.id)
get-appended w (v ∷ rows) h = ground (arith, get-appended w rows)

earlier_endpoint-remember :
    (key : String) (w : WebhookEndpoint) (now : ℕ) (db : Db)
    → (key == "") ≡ false
    → Keys.get "webhook.create" key db.idempotency_keys ≡ none
    → earlier_endpoint key (remember "webhook.create" key w.id now db) ≡ get w.id db.webhooks
unfolding earlier_endpoint remember replay
earlier_endpoint-remember key w now db keyed new =
    ground (arith, get-put_new "webhook.create" key "webhook" w.id now db.idempotency_keys new)

create_new-earlier :
    (draws : Draws) (input : Input) (key : String) (db db' : Db) (w : WebhookEndpoint)
    → (key == "") ≡ false
    → Keys.get "webhook.create" key db.idempotency_keys ≡ none
    → create_new draws input key db ≡ ok (db', w)
    → earlier_endpoint key db' ≡ some w
unfolding create_new create
create_new-earlier draws input key db db' w keyed new e =
    let made = new_endpoint draws input in
    let db1 : Db = record db { webhooks = db.webhooks ++ made ∷ [] } in
    elim (Bool-cases (any (λ (v : WebhookEndpoint). v.id == draws.id) db.webhooks)) [
      | inl taken ↦ absurd (ground (arith, taken, e))
      | inr fresh ↦
          let done : ◌≡◌ {A = Result (Db × WebhookEndpoint)}
              (ok (remember "webhook.create" key made.id draws.now db1, made)) (ok (db', w)) =
            ground (arith, fresh, e) in
          let same_db : remember "webhook.create" key made.id draws.now db1 ≡ db' =
            ground (arith, done) in
          let same : made ≡ w = ground (arith, done) in
          rw (← same_db, ← same)
            (earlier_endpoint-remember key made draws.now db1 keyed new
              ∙ get-appended made db.webhooks fresh)
    ]

-- When a request under a key has answered with an endpoint, and the key was not used before or the
-- endpoint that it stands for was still stored, every later request under that key on the state it
-- left, whatever it asks for, answers with the same endpoint and changes nothing.
pub create_webhook_endpoint-again :
    (draws draws' : Draws) (input input' : Input) (key : String) (db db' : Db) (w : WebhookEndpoint)
    → (key == "") ≡ false
    → ((r : Keys.IdempotencyRecord)
        → Keys.get "webhook.create" key db.idempotency_keys ≡ some r
        → (v : WebhookEndpoint) × (get r.resource_id db.webhooks ≡ some v))
    → create_webhook_endpoint draws input key db ≡ ok (db', w)
    → create_webhook_endpoint draws' input' key db' ≡ ok (db', w)
unfolding create_webhook_endpoint
create_webhook_endpoint-again draws draws' input input' key db db' w keyed live e =
    let known : earlier_endpoint key db' ≡ some w = first in ground (arith, known)
  where
    recorded :
        (r : Keys.IdempotencyRecord)
        → Keys.get "webhook.create" key db.idempotency_keys ≡ some r
        → earlier_endpoint key db' ≡ some w
    recorded r at =
        let (v, stored) = live r at in
        let found : earlier_endpoint key db ≡ some v =
          unfold earlier_endpoint replay in ground (arith, keyed, at, stored) in
        let done : ◌≡◌ {A = Result (Db × WebhookEndpoint)} (ok (db, v)) (ok (db', w)) =
          ground (arith, found, e) in
        let same_db : db ≡ db' = ground (arith, done) in
        let same : v ≡ w = ground (arith, done) in rw (← same_db, ← same) found

    unused :
        Keys.get "webhook.create" key db.idempotency_keys ≡ none → earlier_endpoint key db' ≡ some w
    unused new =
        let missing : earlier_endpoint key db ≡ none =
          unfold earlier_endpoint replay in ground (arith, keyed, new) in
        create_new-earlier draws input key db db' w keyed new (ground (arith, missing, e))

    first : earlier_endpoint key db' ≡ some w
    first = elim (Option-cases (Keys.get "webhook.create" key db.idempotency_keys)) [
      | inl new ↦ unused new
      | inr (r, at) ↦ recorded r at
    ]
