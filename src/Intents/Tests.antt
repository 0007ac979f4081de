-- ===== src/Intents/Tests.antt =====
-- A send that is prepared twice.
use rai_flow.Prelude.{String, ◌≡◌, refl, List, [], ◌∷◌}
use rai_flow.Intents.Store.{Intent, Call, creates, updates, gets, run, run_in_memory}
use rai_flow.Intents.FirstWins.{Keeps, run-Keeps, intent_stores_agree}

abbrev intent : String → Intent
intent hash = record {
  owner_id = "s1";
  block_hash = hash;
  block_json = "{}";
  frontier = "F0";
  resulting_balance_raw = 3;
  created_at = 5;
}

abbrev calls : List Call
calls =
    creates ("s1" ∷ []) (intent "B2")
    ∷ updates "s1" "B1" "{w}"
    ∷ updates "s1" "B2" "{v}"
    ∷ gets "s1"
    ∷ []

run-Keeps_example : Keeps "s1" (intent "B1") (run calls (intent "B1" ∷ [])).0
run-Keeps_example =
    run-Keeps calls "s1" (intent "B1") (intent "B1" ∷ []) (
      intent "B1",
      refl,
      record { block_hash = refl; frontier = refl; resulting_balance_raw = refl },
    )

intent_stores_agree_example : (run_in_memory calls []).1 ≡ (run calls []).1
intent_stores_agree_example = intent_stores_agree calls (refl, (tt, (tt, (tt, tt))))
