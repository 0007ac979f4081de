-- ===== src/Outbox/Attempts.antt =====
-- How often a job of the outbox is attempted: `deliver` of the worker and `recordAttempt`.
use rai_flow.Prelude.{
  ℕ, suc, ◌<◌, String, Bool, true, false, ◌&&◌, ◌≡◌, none, some, List, [], ◌∷◌, ◌==◌, string_eq,
  nat_eq, ◌⊎◌, if◌then◌else◌,
}
use rai_flow.Storage.Db.{Db, Job}
use rai_flow.Outbox.Store.{Delivery, Call, appends, claims, records, step, is_held_by}
use rai_flow.Outbox.Worker.{deliver, AttemptResult}
use rai_flow.Outbox.Leased.{is_settled, job_by_id}

-- A call records an attempt at the job `j` with an id: the UPDATE finds the row.
abbrev accepts : Call → String → Job → Bool
accepts (appends uuid event) id j = false
accepts (claims worker now until limit) id j = false
accepts (records uuid job_id worker attempt) id j = job_id == id && is_held_by job_id worker j

abbrev accepted : Call → String → Db → Bool
accepted c id db = elim (job_by_id id db.outbox) [ none ↦ false | some j ↦ accepts c id j ]

-- The number of attempts at a job that a run records.
unfoldable pub tries : String → List Call → Db → ℕ
tries id [] db = 0
tries id (c ∷ cs) db =
    let rest = tries id cs (step c db) in if accepted c id db then suc rest else rest

-- What is recorded is what `deliver` makes of a delivery that shows the count of its job.
abbrev pub IsMade : ℕ → Call → Db → Type 0
IsMade max_attempts (appends uuid event) db = Unit {0}
IsMade max_attempts (claims worker now until limit) db = Unit {0}
IsMade max_attempts (records uuid job_id worker attempt) db =
    (jitter : ℕ → ℕ) × (at : ℕ) × (d : Delivery) × (r : AttemptResult) × (attempt
      ≡ deliver jitter max_attempts at d r)
    × ((j : Job) → job_by_id job_id db.outbox ≡ some j → d.attempt_count ≡ j.attempt_count)

abbrev pub AreMade : ℕ → List Call → Db → Type 0
AreMade max_attempts [] db = Unit {0}
AreMade max_attempts (c ∷ cs) db = IsMade max_attempts c db × AreMade max_attempts cs (step c db)

-- A job that is not settled has attempts left.
abbrev pub HasAttempts : ℕ → Job → Type 0
HasAttempts max_attempts j = is_settled j.status ≡ false → j.attempt_count < max_attempts

-- The job after a call that records no attempt at it.
record IsSame (j k : Job) : Type 0 where
  count : k.attempt_count ≡ j.attempt_count
  settled : is_settled k.status ≡ is_settled j.status

-- The job after an attempt at it.
record IsTried (max_attempts : ℕ) (j k : Job) : Type 0 where
  open_ : is_settled j.status ≡ false
  count : k.attempt_count ≡ suc j.attempt_count
  left : HasAttempts max_attempts k

-- What a call does to a job.
After : ℕ → Call → String → Job → Db → Type 0
After m c id j db =
    (k : Job) × (job_by_id id db.outbox ≡ some k)
    × (((accepts c id j ≡ false) × IsSame j k) ⊎ ((accepts c id j ≡ true) × IsTried m j k))
