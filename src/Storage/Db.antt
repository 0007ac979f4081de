-- ===== src/Storage/Db.antt =====
-- The tables of packages/storage/src/index.ts that the modelled transactions share, and the
-- statements that append an event with its webhook jobs.
use text.Mathlib.Text.{starts_with}
use rai_flow.Prelude.{
  ℕ, suc, String, Bool, true, false, ◌&&◌, ◌||◌, Option, none, some, List, [], ◌∷◌, ◌++◌, ◌==◌,
  string_eq, if◌then◌else◌, any,
}
use rai_flow.Model.{
  Invoice, Payment, Deposit, Account, InvoiceAccount, ReceiveTask, Send, WebhookEndpoint, Event,
}

pub data JobStatus : Type 0 where
  pending processing delivered failed : JobStatus

-- `WebhookOutboxAttempt.status`
pub data AttemptStatus : Type 0 where
  delivered retry failed : AttemptStatus

-- A row of webhook_outbox.
pub record Job : Type 0 where
  pub id : String
  pub event_id : String
  pub webhook_id : String
  pub status : JobStatus
  pub attempt_count : ℕ
  pub next_attempt_at : ℕ
  pub lease_owner : Option String
  pub lease_until : Option ℕ
  pub last_error : Option String
  pub created_at : ℕ
  pub updated_at : ℕ

-- A row of refunds. The status and the times of a refund are those of its send.
pub record RefundRow : Type 0 where
  pub id : String
  pub deposit_id : String
  pub invoice_id : Option String
  pub send_id : String
  pub destination : String
  pub amount_raw : ℕ
  pub idempotency_key : String
  pub created_at : ℕ

-- A row of webhook_deliveries, the history of attempts.
pub record DeliveryRow : Type 0 where
  pub id : String
  pub webhook_id : String
  pub event_id : String
  pub attempt : ℕ
  pub status : AttemptStatus
  pub response_code : Option ℕ
  pub response_body : Option String
  pub next_retry_at : Option ℕ
  pub created_at : ℕ

-- A row of idempotency_keys.
pub record KeyRow : Type 0 where
  pub key : String
  pub resource_type : String
  pub resource_id : String
  pub created_at : ℕ

-- `last_sequence` is what AUTOINCREMENT remembers.
pub record Db : Type 0 where
  pub invoices : List Invoice
  pub invoice_accounts : List InvoiceAccount
  pub payments : List Payment
  pub deposits : List Deposit
  pub accounts : List Account
  pub receive_tasks : List ReceiveTask
  pub sends : List Send
  pub refunds : List RefundRow
  pub webhooks : List WebhookEndpoint
  pub events : List Event
  pub last_sequence : ℕ
  pub outbox : List Job
  pub idempotency_keys : List KeyRow
  pub deliveries : List DeliveryRow

abbrev pub empty_db : Db
empty_db = record {
  invoices = [];
  invoice_accounts = [];
  payments = [];
  deposits = [];
  accounts = [];
  receive_tasks = [];
  sends = [];
  refunds = [];
  webhooks = [];
  events = [];
  last_sequence = 0;
  outbox = [];
  idempotency_keys = [];
  deliveries = [];
}

-- The prefix that a filter ending in ".*" asks for: `filter.slice(0, -1)`.
pub family_prefix : String → Option String
family_prefix String.[] = none
family_prefix (String.◌∷◌ c String.[]) = none
family_prefix (String.◌∷◌ c (String.◌∷◌ d s)) =
    let rest = family_prefix (String.◌∷◌ d s) in
    if String.◌∷◌ c (String.◌∷◌ d s) == ".*"
    then some (String.◌∷◌ c String.[])
    else elim rest [ none ↦ none | some p ↦ some (String.◌∷◌ c p) ]

abbrev family_matches : String → Option String → Bool
family_matches event_type none = false
family_matches event_type (some p) = starts_with event_type p

filter_matches : String → String → Bool
unfolding family_prefix
filter_matches event_type filter =
    filter == "*" || filter == event_type || family_matches event_type (family_prefix filter)

unfoldable pub webhook_matches_event : String → List String → Bool
unfolding filter_matches
webhook_matches_event event_type filters = any (filter_matches event_type) filters

-- INSERT OR IGNORE INTO webhook_outbox: the id and the pair of event and webhook are unique.
unfoldable pub insert_job : Job → List Job → List Job
insert_job job jobs =
    if any
      (λ (j : Job). j.id == job.id || j.event_id == job.event_id && j.webhook_id == job.webhook_id)
      jobs
    then jobs
    else jobs ++ job ∷ []

-- The loop of `enqueueWebhookOutbox` over the endpoints; `uuid w` is the id drawn for endpoint `w`.
unfoldable pub enqueue_webhook_outbox :
    (String → String) → Event → ℕ → List WebhookEndpoint → List Job → List Job
unfolding insert_job
enqueue_webhook_outbox uuid event created_at [] jobs = jobs
enqueue_webhook_outbox uuid event created_at (w ∷ ws) jobs =
    enqueue_webhook_outbox uuid event created_at ws
      (if webhook_matches_event event.type w.event_types then insert_job job jobs else jobs)
  where
    job : Job
    job = record {
      id = uuid w.id;
      event_id = event.id;
      webhook_id = w.id;
      status = pending;
      attempt_count = 0;
      next_attempt_at = created_at;
      lease_owner = none;
      lease_until = none;
      last_error = none;
      created_at = created_at;
      updated_at = created_at;
    }

-- INSERT INTO events … ON CONFLICT(id) DO NOTHING, and the jobs of an event that was inserted.
unfoldable pub append_event : (String → String) → Event → Db → Db × Bool
append_event uuid event db =
    if any (λ (e : Event). e.id == event.id) db.events then (db, false) else (
      record db {
        events = db.events ++ record event { sequence = some (suc db.last_sequence) } ∷ [];
        last_sequence = suc db.last_sequence;
        outbox = enqueue_webhook_outbox uuid event event.timestamp db.webhooks db.outbox;
      },
      true,
    )
