-- ===== src/Idempotency/Tests.antt =====
-- A key that is used twice.
use rai_flow.Prelude.{true, ◌≡◌, refl, some, [], ◌∷◌, is_some}
use rai_flow.Idempotency.Keys.{scoped_idempotency_key, split_at_colon, split-scoped}
use rai_flow.Idempotency.Store.{IdempotencyRecord, get, Put, apply, run, run_in_memory}
use rai_flow.Idempotency.Agreement.{replay_stores_agree, get-put}

abbrev first : Put
first = record {
  scope = "send.queue";
  key = "k:1";
  resource_type = "send";
  resource_id = "s1";
  now = 5;
}

abbrev again : Put
again = record {
  scope = "send.queue";
  key = "k:1";
  resource_type = "send";
  resource_id = "s2";
  now = 9;
}

split-scoped_example :
    split_at_colon (scoped_idempotency_key "send.queue" "k:1") ≡ some ("send.queue", "k:1")
split-scoped_example = split-scoped "send.queue" "k:1" refl

replay_stores_agree_example :
    (run_in_memory (first ∷ again ∷ []) []).1 ≡ (run (first ∷ again ∷ []) []).1
replay_stores_agree_example = replay_stores_agree (first ∷ again ∷ []) (refl, (refl, tt))

get-put_example :
    (is_some (apply again (apply first []).0).1 ≡ true)
    × ((r : IdempotencyRecord)
        → get "send.queue" "k:1" (apply first []).0 ≡ some r
        → get "send.queue" "k:1" (apply again (apply first []).0).0 ≡ some r)
get-put_example = get-put again "send.queue" "k:1" (apply first []).0
