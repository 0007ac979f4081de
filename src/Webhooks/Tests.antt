-- ===== src/Webhooks/Tests.antt =====
-- Requests for webhook endpoints on an empty database, and the witness.
use rai_flow.Prelude.{String, ℕ, ◌≡◌, refl, none, [], ◌∷◌, string_eq, arith, map}
use rai_flow.Model.{WebhookEndpoint}
use rai_flow.Model.Errors.{Result, ok, err}
use rai_flow.Storage.Db.{Db, empty_db}
use rai_flow.Idempotency.Keys.{scoped_idempotency_key}
use rai_flow.Idempotency.Store as Keys
use rai_flow.Webhooks.Endpoints.{
  Input, Draws, new_endpoint, create, delete, replay, remember, create_new, earlier_endpoint,
  create_webhook_endpoint, delete_webhook_endpoint,
}
use rai_flow.Webhooks.Replays.{create_webhook_endpoint-again}

abbrev draws : ℕ → String → Draws
draws now id = record { now = now; id = id; secret = "s" }

abbrev input : String → Input
input url = record { url = url; event_types = "*" ∷ []; secret = none }

abbrev db_of : Result (Db × WebhookEndpoint) → Db
db_of (ok (db, w)) = db
db_of (err f) = empty_db

abbrev created : Db
created = db_of (create_webhook_endpoint (draws 1 "w1") (input "u") "k" empty_db)

created_first :
    create_webhook_endpoint (draws 1 "w1") (input "u") "k" empty_db
    ≡ ok (created, new_endpoint (draws 1 "w1") (input "u"))
unfolding create_webhook_endpoint earlier_endpoint replay create_new create remember Keys.get
    Keys.put Keys.insert_key scoped_idempotency_key
created_first = refl

nothing_recorded : Keys.get "webhook.create" "k" [] ≡ none
unfolding Keys.get
nothing_recorded = refl

create_webhook_endpoint-again_example :
    create_webhook_endpoint (draws 2 "w2") (input "v") "k" created
    ≡ ok (created, new_endpoint (draws 1 "w1") (input "u"))
create_webhook_endpoint-again_example =
    create_webhook_endpoint-again (draws 1 "w1") (draws 2 "w2") (input "u") (input "v") "k" empty_db
      created (new_endpoint (draws 1 "w1") (input "u")) refl
      (λ r at. absurd (ground (arith, nothing_recorded, at))) created_first

-- Two requests under the key of an endpoint that has been deleted.
abbrev deleted : Db
deleted = (delete_webhook_endpoint "w1" "d" 2 created).0

abbrev after_two : Db
after_two = db_of (
    create_webhook_endpoint (draws 4 "w3") (input "u") "k"
      (db_of (create_webhook_endpoint (draws 3 "w2") (input "u") "k" deleted)))

two_endpoints : map (λ (w : WebhookEndpoint). w.id) after_two.webhooks ≡ "w2" ∷ "w3" ∷ []
unfolding create_webhook_endpoint delete_webhook_endpoint delete earlier_endpoint replay create_new
    create remember Keys.get Keys.put Keys.insert_key scoped_idempotency_key
two_endpoints = refl
