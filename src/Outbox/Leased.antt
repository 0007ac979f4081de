-- ===== src/Outbox/Leased.antt =====
-- Leased jobs under the calls of other workers, and settled jobs.
use rai_flow.Prelude.{
  ℕ, ◌<◌, String, Bool, true, false, ◌≡◌, ◌≢◌, Option, some, List, [], ◌∷◌, ◌++◌, arith, map, ◌==◌,
  string_eq, nat_eq, eq_iff, find, All,
}
use rai_flow.Model.{Event, WebhookEndpoint}
use rai_flow.Storage.Db.{Db, Job, JobStatus, append_event, enqueue_webhook_outbox, insert_job}
use rai_flow.Outbox.Store.{
  Attempt, Call, appends, claims, records, step, run, claim_ready, record_attempt, lease_job,
  record_job, is_ready, is_held_by,
}

abbrev pub job_by_id : String → List Job → Option Job
job_by_id id = find (λ (j : Job). j.id == id)

-- A row that is found first stays first under a change of rows that keeps ids and this row.
job_by_id-map :
    (f : Job → Job) (id : String) (jobs : List Job) (j : Job)
    → ((k : Job) → (f k).id ≡ k.id)
    → f j ≡ j
    → job_by_id id jobs ≡ some j
    → job_by_id id (map f jobs) ≡ some j
job_by_id-map f id [] j keeps fixed e = cc
job_by_id-map f id (k ∷ jobs) j keeps fixed e =
    ground (arith, keeps k, job_by_id-map f id jobs j keeps fixed)

job_by_id-append :
    (id : String) (jobs more : List Job) (j : Job)
    → job_by_id id jobs ≡ some j
    → job_by_id id (jobs ++ more) ≡ some j
job_by_id-append id [] more j e = cc
job_by_id-append id (k ∷ jobs) more j e = ground (arith, job_by_id-append id jobs more j)

job_by_id-insert_job :
    (id : String) (job : Job) (jobs : List Job) (j : Job)
    → job_by_id id jobs ≡ some j
    → job_by_id id (insert_job job jobs) ≡ some j
unfolding insert_job
job_by_id-insert_job id job jobs j e = ground (arith, job_by_id-append id jobs (job ∷ []) j e)

pub job_by_id-enqueue :
    (uuid : String → String) (event : Event) (at : ℕ) (ws : List WebhookEndpoint) (id : String)
    (jobs : List Job) (j : Job)
    → job_by_id id jobs ≡ some j
    → job_by_id id (enqueue_webhook_outbox uuid event at ws jobs) ≡ some j
unfolding enqueue_webhook_outbox
job_by_id-enqueue uuid event at [] id jobs j e = e
job_by_id-enqueue uuid event at (w ∷ ws) id jobs j e =
    job_by_id-enqueue uuid event at ws id _ j (grind (arith, job_by_id-insert_job))

pub lease_job-id :
    (worker : String) (now until : ℕ) (ids : List String) (j : Job)
    → (lease_job worker now until ids j).id ≡ j.id
unfolding lease_job
lease_job-id worker now until ids j = ground arith

pub record_job-id :
    (job_id worker : String) (attempt : Attempt) (j : Job)
    → (record_job job_id worker attempt j).id ≡ j.id
unfolding record_job
record_job-id job_id worker attempt j = ground arith

-- The calls that a job is safe from: claims made when it is not due, and attempts of a worker that
-- does not hold it.
abbrev Spares : Job → Call → Type 0
Spares j (appends uuid event) = Unit
Spares j (claims worker now until limit) = is_ready now j ≡ false
Spares j (records uuid job_id worker attempt) = is_held_by job_id worker j ≡ false

step-keeps :
    (c : Call) (db : Db) (id : String) (j : Job)
    → job_by_id id db.outbox ≡ some j
    → Spares j c
    → job_by_id id (step c db).outbox ≡ some j
unfolding step append_event claim_ready record_attempt lease_job record_job
step-keeps (appends uuid event) db id j e s =
    ground (arith, job_by_id-enqueue uuid event event.timestamp db.webhooks id db.outbox j e)
step-keeps (claims worker now until limit) db id j e s =
    job_by_id-map (lease_job worker now until _) id db.outbox j (lease_job-id worker now until _)
      (ground arith) e
step-keeps (records uuid job_id worker attempt) db id j e s = ground (
  arith,
  job_by_id-map (record_job job_id worker attempt) id db.outbox j
      (record_job-id job_id worker attempt) (ground arith) e,
)

run-keeps :
    (cs : List Call) (db : Db) (id : String) (j : Job)
    → job_by_id id db.outbox ≡ some j
    → All (Spares j) cs
    → job_by_id id (run cs db).outbox ≡ some j
unfolding run
run-keeps [] db id j e s = e
run-keeps (c ∷ cs) db id j e (s, ss) = run-keeps cs (step c db) id j (step-keeps c db id j e s) ss

-- Claims before a time, and attempts of workers other than one.
abbrev pub RespectsLease : String → ℕ → Call → Type 0
RespectsLease owner until (appends uuid event) = Unit
RespectsLease owner until (claims worker now new_until limit) = now < until
RespectsLease owner until (records uuid job_id worker attempt) = owner ≢ worker

leased-Spares :
    (j : Job) (owner : String) (until : ℕ) (c : Call)
    → j.status ≡ JobStatus.processing
    → j.lease_owner ≡ some owner
    → j.lease_until ≡ some until
    → RespectsLease owner until c
    → Spares j c
unfolding is_ready is_held_by
leased-Spares j owner until (appends uuid event) p o u r = tt
leased-Spares j owner until (claims worker now new_until limit) p o u r = ground arith
leased-Spares j owner until (records uuid job_id worker attempt) p o u r =
    ground (arith, eq_iff owner worker)

All-Spares :
    (j : Job) (cs : List Call) {P : Call → Type 0}
    → ((c : Call) → P c → Spares j c)
    → All P cs
    → All (Spares j) cs
All-Spares j [] f h = tt
All-Spares j (c ∷ cs) f (h, hs) = (f c h, All-Spares j cs f hs)

-- While a lease on a job runs, no sequence of appended events, of claims by any worker and of
-- attempts by other workers changes the job.
pub lease_excludes :
    (cs : List Call) (db : Db) (id owner : String) (until : ℕ) (j : Job)
    → job_by_id id db.outbox ≡ some j
    → j.status ≡ JobStatus.processing
    → j.lease_owner ≡ some owner
    → j.lease_until ≡ some until
    → All (RespectsLease owner until) cs
    → job_by_id id (run cs db).outbox ≡ some j
lease_excludes cs db id owner until j e p o u h =
    run-keeps cs db id j e (All-Spares j cs (λ c. leased-Spares j owner until c p o u) h)

-- A job is settled once it was delivered or has failed.
abbrev pub is_settled : JobStatus → Bool
is_settled JobStatus.delivered = true
is_settled JobStatus.failed = true
is_settled _ = false

settled-Spares : (j : Job) (c : Call) → is_settled j.status ≡ true → Spares j c
unfolding is_ready is_held_by
settled-Spares j (appends uuid event) h = tt
settled-Spares j (claims worker now until limit) h = ground arith
settled-Spares j (records uuid job_id worker attempt) h = ground arith

spared_when_settled : (j : Job) (cs : List Call) → is_settled j.status ≡ true → All (Spares j) cs
spared_when_settled j [] h = tt
spared_when_settled j (c ∷ cs) h = (settled-Spares j c h, spared_when_settled j cs h)

-- No sequence of appended events, claims and recorded attempts changes a job that was delivered or has
-- failed.
pub settled_stays :
    (cs : List Call) (db : Db) (id : String) (j : Job)
    → job_by_id id db.outbox ≡ some j
    → is_settled j.status ≡ true
    → job_by_id id (run cs db).outbox ≡ some j
settled_stays cs db id j e h = run-keeps cs db id j e (spared_when_settled j cs h)
