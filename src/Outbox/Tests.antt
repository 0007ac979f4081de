-- ===== src/Outbox/Tests.antt =====
-- A job that a worker holds until 100.
use rai_flow.Prelude.{ℕ, String, ◌≡◌, ◌≢◌, refl, Option, none, some, List, [], ◌∷◌, arith, eq_iff}
use rai_flow.Model.{Event, block_data}
use rai_flow.Storage.Db.{Db, empty_db, Job, JobStatus}
use rai_flow.Outbox.Store.{Attempt, Delivery, Call, claims, records, run}
use rai_flow.Outbox.Worker.{deliver, retry, AttemptResult}
use rai_flow.Outbox.Leased.{job_by_id, lease_excludes, settled_stays}

abbrev job : JobStatus → Option String → Option ℕ → Job
job status owner until = record {
  id = "o";
  event_id = "e";
  webhook_id = "h";
  status = status;
  attempt_count = 2;
  next_attempt_at = 10;
  lease_owner = owner;
  lease_until = until;
  last_error = none;
  created_at = 5;
  updated_at = 5;
}

abbrev leased : Job
leased = job JobStatus.processing (some "w1") (some 100)

abbrev leased_db : Db
leased_db = record empty_db { outbox = leased ∷ [] }

abbrev failed_result : AttemptResult
failed_result = record {
  status = retry;
  response_code = some 500;
  response_body = none;
  error = some "HTTP 500";
}

abbrev event : Event
event = record {
  sequence = some 1;
  id = "e";
  type = "block.published";
  timestamp = 5;
  payload = block_data "AB";
  resource_id = "AB";
  resource_type = "block";
}

abbrev delivery : Delivery
delivery = record {
  id = "o";
  event = event;
  endpoint = record { id = "h"; url = "u"; secret = "s"; event_types = "*" ∷ []; created_at = 1 };
  attempt_count = 2;
}

abbrev twice : ℕ → ℕ
twice base = base

abbrev attempt : Attempt
attempt = deliver twice 6 60 delivery failed_result

abbrev others : List Call
others = claims "w2" 50 80 4 ∷ records "r" "o" "w2" attempt ∷ []

abbrev w1 : String
w1 = "w1"

other_name : w1 ≢ "w2"
other_name e = ground (arith, (eq_iff w1 "w2").1 e)

lease_excludes_example : job_by_id "o" (run others leased_db).outbox ≡ some leased
lease_excludes_example =
    lease_excludes others leased_db "o" "w1" 100 leased refl refl refl refl
      (omega arith, (other_name, tt))

abbrev settled_db : Db
settled_db = record empty_db { outbox = job JobStatus.failed none none ∷ [] }

settled_stays_example :
    job_by_id "o" (run others settled_db).outbox ≡ some (job JobStatus.failed none none)
settled_stays_example =
    settled_stays others settled_db "o" (job JobStatus.failed none none) refl refl

abbrev own : List Call
own = records "r" "o" "w1" attempt ∷ []
