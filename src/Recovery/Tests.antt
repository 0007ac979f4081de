-- ===== src/Recovery/Tests.antt =====
-- A history of two receives, the second of a send that is not confirmed.
use rai_flow.Prelude.{String, some, List, [], ◌∷◌, ◌==◌, string_eq}
use rai_flow.Recovery.Reconcile.{Entry, BlockInfo}

abbrev entry : String → String → Entry
entry hash link = record { hash = hash; type = "state"; subtype = some "receive"; link = some link }

abbrev info : String → BlockInfo
info link = record {
  confirmed = link == "S1";
  subtype = some "send";
  link_as_account = some "nano_1";
  block_account = "nano_2";
  amount = 4;
  local_timestamp = some 9;
}

abbrev history : List Entry
history = entry "R2" "S2" ∷ entry "R1" "S1" ∷ []
