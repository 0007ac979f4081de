-- ===== src/Subscriptions/Tests.antt =====
-- Two controllers, one of which leaves.
use rai_flow.Prelude.{ℕ, Bool, false, not, ◌&&◌, ◌≡◌, List, [], ◌∷◌, any}
use rai_flow.Subscriptions.Manager.{Controller, is_same, publish, Call, subscribes, removes, after}
use rai_flow.Subscriptions.Listening.{is_subscribed, publish-after}

abbrev first : Controller
first = record { ref = 1; id = "a" }

abbrev second : Controller
second = record { ref = 2; id = "b" }

abbrev calls : List Call
calls = removes second ∷ subscribes "nano_1" second ∷ subscribes "nano_1" first ∷ []

abbrev all_open : ℕ → Bool
all_open ref = false

publish-after_example :
    any (is_same first) (publish all_open "nano_1" (after calls))
    ≡ (is_subscribed "nano_1" first calls && not (all_open first.ref))
publish-after_example = publish-after all_open "nano_1" first calls
