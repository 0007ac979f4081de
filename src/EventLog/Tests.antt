-- ===== src/EventLog/Tests.antt =====
-- Three events, read two at a time.
use rai_flow.Prelude.{ℕ, ◌≡◌, refl, none, some, List, [], ◌∷◌, arith}
use rai_flow.Model.{Event, block_data}
use rai_flow.Model.Errors.{ok}
use rai_flow.EventLog.Pages.{Options, from_start, Page, list_events}
use rai_flow.EventLog.Complete.{Ascending, Completes, list_events-Completes}

abbrev event : ℕ → Event
event n = record {
  sequence = some n;
  id = "e";
  type = "block.published";
  timestamp = n;
  payload = block_data "AB";
  resource_id = "AB";
  resource_type = "block";
}

abbrev stored : List Event
stored = event 1 ∷ event 2 ∷ event 5 ∷ []

abbrev two : Options
two = record {
  after = from_start;
  limit = some 2;
  type = none;
  resource_type = none;
  resource_id = none;
}

stored-Ascending : Ascending stored
stored-Ascending =
    (refl, ((omega arith, (omega arith, tt)), (refl, ((omega arith, tt), (refl, (tt, tt))))))

list_events-Completes_example :
    (page : Page) × (list_events two stored ≡ ok page) × Completes two stored page
list_events-Completes_example =
    list_events-Completes two 1 stored stored-Ascending refl (omega arith) refl
