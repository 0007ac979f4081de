-- ===== src/Webhooks/Endpoints.antt =====
-- `createSqliteWebhookStore`, and `Runtime.createWebhookEndpoint` and `deleteWebhookEndpoint` of
-- packages/runtime/src/runtime.ts over it. A request without a key has the empty one, which the code
-- treats the same.
use rai_flow.Prelude.{
  ℕ, String, Bool, true, false, not, Option, none, some, List, [], ◌∷◌, ◌++◌, ◌==◌, ◌||◌, string_eq,
  leb, if◌then◌else◌, any, filter, find,
}
use rai_flow.Model.{WebhookEndpoint}
use rai_flow.Model.Errors.{Result, ok, err, plain}
use rai_flow.Storage.Db.{Db, Job}
use rai_flow.Idempotency.Store as Keys

pub record Input : Type 0 where
  pub url : String
  pub event_types : List String
  pub secret : Option String

-- What a call draws: the time, the id, and the secret where the request has none.
pub record Draws : Type 0 where
  pub now : ℕ
  pub id : String
  pub secret : String

abbrev pub get : String → List WebhookEndpoint → Option WebhookEndpoint
get id = find (λ (w : WebhookEndpoint). w.id == id)

abbrev pub new_endpoint : Draws → Input → WebhookEndpoint
new_endpoint draws input = record {
  id = draws.id;
  url = input.url;
  secret = elim input.secret [ none ↦ draws.secret | some secret ↦ secret ];
  event_types = input.event_types;
  created_at = draws.now;
}

unfoldable pub create : Draws → Input → Db → Result (Db × WebhookEndpoint)
create draws input db =
    if any (λ (w : WebhookEndpoint). w.id == draws.id) db.webhooks
    then err (plain "UNIQUE constraint failed: webhooks.id")
    else ok (
      record db { webhooks = db.webhooks ++ new_endpoint draws input ∷ [] },
      new_endpoint draws input,
    )

insert_newest : WebhookEndpoint → List WebhookEndpoint → List WebhookEndpoint
insert_newest w [] = w ∷ []
insert_newest w (v ∷ vs) =
    let rest = insert_newest w vs in if leb v.created_at w.created_at then w ∷ v ∷ vs else v ∷ rest

-- ORDER BY created_at DESC
list : List WebhookEndpoint → List WebhookEndpoint
list [] = []
list (w ∷ ws) = insert_newest w (list ws)

-- DELETE FROM webhooks; the jobs of the endpoint go with it (ON DELETE CASCADE).
unfoldable pub delete : String → Db → Db × Bool
delete id db =
    if any (λ (w : WebhookEndpoint). w.id == id) db.webhooks
    then (
      record db {
        webhooks = filter (λ (w : WebhookEndpoint). not (w.id == id)) db.webhooks;
        outbox = filter (λ (j : Job). not (j.webhook_id == id)) db.outbox;
      },
      true,
    )
    else (db, false)

get_by_event_type : String → List WebhookEndpoint → List WebhookEndpoint
get_by_event_type type = filter (λ (w : WebhookEndpoint).
    any (λ t. t == "*") w.event_types || any (λ t. t == type) w.event_types)

-- The record of the key, where the request has one.
unfoldable pub replay : String → String → Db → Option Keys.IdempotencyRecord
replay scope key db = if key == "" then none else Keys.get scope key db.idempotency_keys

unfoldable pub remember : String → String → String → ℕ → Db → Db
remember scope key id now db = if key == "" then db else record db {
  idempotency_keys = (Keys.put scope key "webhook" id now db.idempotency_keys).0;
}

unfoldable pub create_new : Draws → Input → String → Db → Result (Db × WebhookEndpoint)
unfolding create remember
create_new draws input key db = elim (create draws input db) [
  | err failure ↦ err failure
  | ok (db', endpoint) ↦ ok (remember "webhook.create" key endpoint.id draws.now db', endpoint)
]

-- The endpoint that an earlier request with the key has created, while it is stored.
unfoldable pub earlier_endpoint : String → Db → Option WebhookEndpoint
unfolding replay
earlier_endpoint key db = elim (replay "webhook.create" key db) [
  | none ↦ none
  | some r ↦ get r.resource_id db.webhooks
]

unfoldable pub create_webhook_endpoint : Draws → Input → String → Db → Result (Db × WebhookEndpoint)
unfolding earlier_endpoint create_new
create_webhook_endpoint draws input key db = elim (earlier_endpoint key db) [
  | some existing ↦ ok (db, existing)
  | none ↦ create_new draws input key db
]

unfoldable pub delete_webhook_endpoint : String → String → ℕ → Db → Db × Bool
unfolding replay remember delete
delete_webhook_endpoint id key now db = elim (replay "webhook.delete" key db) [
  | some r ↦ (db, r.resource_id == id)
  | none ↦
      let (db', deleted) = delete id db in
      if deleted then (remember "webhook.delete" key id now db', true) else (db', false)
]
