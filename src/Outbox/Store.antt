-- ===== src/Outbox/Store.antt =====
-- `createSqliteWebhookOutboxStore`: leasing due jobs to a worker and recording its attempts.
use rai_flow.Prelude.{
  ℕ, String, Bool, true, false, ◌&&◌, ◌||◌, Option, none, some, List, [], ◌∷◌, ◌++◌, map, ◌==◌,
  string_eq, nat_eq, ltb, leb, min, max, if◌then◌else◌, find, filter, any, take, holds, or_default,
  or_else,
}
use rai_flow.Model.{Event, WebhookEndpoint}
use rai_flow.Storage.Db.{Db, Job, JobStatus, AttemptStatus, append_event}

-- `WebhookOutboxDelivery`
pub record Delivery : Type 0 where
  pub id : String
  pub event : Event
  pub endpoint : WebhookEndpoint
  pub attempt_count : ℕ

-- `WebhookOutboxAttempt`
pub record Attempt : Type 0 where
  pub number : ℕ
  pub status : AttemptStatus
  pub response_code : Option ℕ
  pub response_body : Option String
  pub error : Option String
  pub next_retry_at : Option ℕ
  pub attempted_at : ℕ

abbrev pub is_pending : JobStatus → Bool
is_pending JobStatus.pending = true
is_pending _ = false

abbrev pub is_processing : JobStatus → Bool
is_processing JobStatus.processing = true
is_processing _ = false

-- `lease_until <= ?`, which no row without a lease meets.
abbrev pub lease_over : ℕ → Option ℕ → Bool
lease_over now none = false
lease_over now (some until) = leb until now

unfoldable pub is_ready : ℕ → Job → Bool
is_ready now j =
    is_pending j.status && leb j.next_attempt_at now
    || is_processing j.status && lease_over now j.lease_until

abbrev before : Job → Job → Bool
before j k =
    ltb j.next_attempt_at k.next_attempt_at
    || j.next_attempt_at == k.next_attempt_at && leb j.created_at k.created_at

insert_ordered : Job → List Job → List Job
insert_ordered j [] = j ∷ []
insert_ordered j (k ∷ ks) =
    let rest = insert_ordered j ks in if before j k then j ∷ k ∷ ks else k ∷ rest

-- ORDER BY next_attempt_at ASC, created_at ASC; rows of equal times stay in the order of the table.
unfoldable pub ordered : List Job → List Job
unfolding insert_ordered
ordered [] = []
ordered (j ∷ js) = insert_ordered j (ordered js)

-- `Math.max(1, Math.min(limit, 100))`
abbrev pub claim_limit : ℕ → ℕ
claim_limit limit = max 1 (min limit 100)

unfoldable pub due : ℕ → ℕ → List Job → List String
unfolding is_ready ordered
due now limit jobs = map (λ (j : Job). j.id) (take limit (ordered (filter (is_ready now) jobs)))

abbrev pub listed : String → List String → Bool
listed id ids = any (λ (i : String). i == id) ids

-- UPDATE … SET status = 'processing' … WHERE id = ? AND (still due), for the ids that were due.
unfoldable pub lease_job : String → ℕ → ℕ → List String → Job → Job
lease_job worker now until ids j =
    if listed j.id ids && is_ready now j
    then record j {
      status = JobStatus.processing;
      lease_owner = some worker;
      lease_until = some until;
      updated_at = now;
    }
    else j

-- The JOIN of a job with its event and its endpoint.
unfoldable pub to_deliveries : Db → List Job → List Delivery
to_deliveries db [] = []
to_deliveries db (j ∷ js) =
    let rest = to_deliveries db js in
    elim (find (λ (e : Event). e.id == j.event_id) db.events) [
      | none ↦ rest
      | some event ↦ elim (find (λ (w : WebhookEndpoint). w.id == j.webhook_id) db.webhooks) [
        | none ↦ rest
        | some endpoint ↦
            record {
              id = j.id;
              event = event;
              endpoint = endpoint;
              attempt_count = j.attempt_count;
            }
            ∷ rest
      ]
    ]

unfoldable pub claim_ready : String → ℕ → ℕ → ℕ → Db → Db × List Delivery
claim_ready worker now until limit db = (record db { outbox = jobs }, to_deliveries db mine)
  where
    ids : List String
    ids = due now (claim_limit limit) db.outbox

    jobs : List Job
    jobs = map (lease_job worker now until ids) db.outbox

    mine : List Job
    mine = ordered (filter (λ (j : Job). holds j.lease_owner worker && listed j.id ids) jobs)

abbrev pub next_status : AttemptStatus → JobStatus
next_status AttemptStatus.retry = JobStatus.pending
next_status AttemptStatus.delivered = JobStatus.delivered
next_status AttemptStatus.failed = JobStatus.failed

-- WHERE id = ? AND status = 'processing' AND lease_owner = ?
unfoldable pub is_held_by : String → String → Job → Bool
is_held_by job_id worker j = j.id == job_id && is_processing j.status && holds j.lease_owner worker

unfoldable pub record_job : String → String → Attempt → Job → Job
record_job job_id worker attempt j =
    if is_held_by job_id worker j
    then record j {
      status = next_status attempt.status;
      attempt_count = attempt.number;
      next_attempt_at = or_default attempt.next_retry_at j.next_attempt_at;
      lease_owner = none;
      lease_until = none;
      last_error = attempt.error;
      updated_at = attempt.attempted_at;
    }
    else j

-- `recordAttempt`; `uuid` is the id drawn for the row of the history.
unfoldable pub record_attempt : String → String → String → Attempt → Db → Db × Bool
record_attempt uuid job_id worker attempt db = elim (find (is_held_by job_id worker) db.outbox) [
  | none ↦ (db, false)
  | some job ↦ (
    record db {
      outbox = map (record_job job_id worker attempt) db.outbox;
      deliveries =
          db.deliveries
          ++ record {
            id = uuid;
            webhook_id = job.webhook_id;
            event_id = job.event_id;
            attempt = attempt.number;
            status = attempt.status;
            response_code = attempt.response_code;
            response_body = or_else attempt.response_body attempt.error;
            next_retry_at = attempt.next_retry_at;
            created_at = attempt.attempted_at;
          }
            ∷ [];
    },
    true,
  )
]

-- The calls that change the outbox.
pub data Call : Type 0 where
  appends : (uuid : String → String) → Event → Call
  claims : (worker : String) (now until limit : ℕ) → Call
  records : (uuid job_id worker : String) → Attempt → Call

unfoldable pub step : Call → Db → Db
step (appends uuid event) db = (append_event uuid event db).0
step (claims worker now until limit) db = (claim_ready worker now until limit db).0
step (records uuid job_id worker attempt) db = (record_attempt uuid job_id worker attempt db).0

unfoldable pub run : List Call → Db → Db
run [] db = db
run (c ∷ cs) db = run cs (step c db)
