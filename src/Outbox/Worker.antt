-- ===== src/Outbox/Worker.antt =====
-- `WebhookOutboxWorker.deliver`: what the worker records after an attempt to post a webhook.
use rai_flow.Prelude.{
  ℕ, ◌+◌, ◌-◌, ◌*◌, ◌^◌, String, Bool, true, false, not, ◌==◌, nat_eq, ◌&&◌, ◌||◌, Option, none,
  some, leb, ltb, min, if◌then◌else◌,
}
use rai_flow.Storage.Db.{AttemptStatus}
use rai_flow.Outbox.Store.{Delivery, Attempt}

-- `DeliveryOutcome`
pub data Outcome : Type 0 where
  delivered retry terminal : Outcome

-- `WebhookAttemptResult`
pub record AttemptResult : Type 0 where
  pub status : Outcome
  pub response_code : Option ℕ
  pub response_body : Option String
  pub error : Option String

-- What `attemptWebhookDelivery` makes of a response: its status code and its body, cut already.
unfoldable pub outcome_of : ℕ → Outcome
outcome_of code =
    if leb 200 code && ltb code 300
    then delivered
    else if leb 400 code && ltb code 500 && not (code == 408) && not (code == 429)
    then terminal
    else retry

-- `Math.min(1_000 * (2 ** Math.max(0, attempt - 1)), MAX_BACKOFF_MS)`
unfoldable pub backoff_base : ℕ → ℕ
backoff_base attempt = min (1000 * 2 ^ (attempt - 1)) 60000

abbrev pub is_delivered : Outcome → Bool
is_delivered delivered = true
is_delivered _ = false

abbrev pub is_retry : Outcome → Bool
is_retry retry = true
is_retry _ = false

abbrev pub is_terminal : Outcome → Bool
is_terminal terminal = true
is_terminal _ = false

-- The attempt to record. `jitter base` is `Math.round(base * (0.75 + Math.random() * 0.5))`.
unfoldable pub deliver :
    (jitter : ℕ → ℕ) → (max_attempts attempted_at : ℕ) → Delivery → AttemptResult → Attempt
deliver jitter max_attempts attempted_at delivery result = record {
  number = number;
  status =
      if is_delivered result.status
      then AttemptStatus.delivered
      else if gives_up
      then AttemptStatus.failed
      else AttemptStatus.retry;
  response_code = result.response_code;
  response_body = result.response_body;
  error = result.error;
  next_retry_at =
      if is_retry result.status && not gives_up
      then some (attempted_at + jitter (backoff_base number))
      else none;
  attempted_at = attempted_at;
}
  where
    number : ℕ
    number = delivery.attempt_count + 1

    gives_up : Bool
    gives_up = is_terminal result.status || is_retry result.status && leb max_attempts number
