-- ===== src/Subscriptions/Manager.antt =====
-- The state and the operations of `SubscriptionManager`. A controller is an object: `ref` is its
-- identity, which a JavaScript `Set` compares.
use rai_flow.Prelude.{
  ℕ, String, Bool, true, false, not, Option, none, some, List, [], ◌∷◌, ◌++◌, map, ◌==◌, string_eq,
  nat_eq, if◌then◌else◌, filter, any, or_default, ltb, length,
}
use rai_flow.Prelude.Dict
use rai_flow.Prelude.Dict.{Dict}

pub record Controller : Type 0 where
  pub ref : ℕ
  pub id : String

pub record Manager : Type 0 where
  pub address_to_controllers : Dict String (List Controller)
  pub controllers : Dict String Controller

abbrev pub empty : Manager
empty = record { address_to_controllers = []; controllers = [] }

abbrev pub is_same : Controller → Controller → Bool
is_same c d = c.ref == d.ref

-- `set.add(controller)`
abbrev pub add : Controller → List Controller → List Controller
add c set = if any (is_same c) set then set else set ++ c ∷ []

-- `set.delete(controller)`
abbrev pub remove : Controller → List Controller → List Controller
remove c = filter (λ d. not (is_same c d))

-- `set.size === 0`
abbrev pub is_empty : List Controller → Bool
is_empty [] = true
is_empty (c ∷ set) = false

unfoldable pub register : Controller → Manager → Manager
register c m = record m { controllers = Dict.set c.id c m.controllers }

unfoldable pub subscribe : String → Controller → Manager → Manager
subscribe address c m = record {
  address_to_controllers =
      Dict.set address (add c (or_default (Dict.get address m.address_to_controllers) []))
        m.address_to_controllers;
  controllers = Dict.set c.id c m.controllers;
}

unfoldable pub unsubscribe : String → Controller → Manager → Manager
unsubscribe address c m = elim (Dict.get address m.address_to_controllers) [
  | none ↦ m
  | some set ↦
      if is_empty (remove c set)
      then record m { address_to_controllers = Dict.delete address m.address_to_controllers }
      else record m {
        address_to_controllers = Dict.set address (remove c set) m.address_to_controllers;
      }
]

-- The loop of `removeConnection` over the addresses, that drops those with no controller.
unfoldable pub drop_empty :
    List String → Dict String (List Controller) → Dict String (List Controller)
drop_empty [] sets = sets
drop_empty (address ∷ addresses) sets =
    drop_empty addresses
      (if is_empty (or_default (Dict.get address sets) []) then Dict.delete address sets else sets)

unfoldable pub remove_connection : Controller → Manager → Manager
unfolding drop_empty
remove_connection c m = record {
  address_to_controllers = drop_empty (map (λ e. e.0) sets) sets;
  controllers = Dict.delete c.id m.controllers;
}
  where
    sets : Dict String (List Controller)
    sets = map (λ (e : String × List Controller). (e.0, remove c e.1)) m.address_to_controllers

-- The controllers that `publish` hands a frame; `closed` tells, by `ref`, which are
-- closed by then.
unfoldable pub publish : (closed : ℕ → Bool) → String → Manager → List Controller
publish closed address m = elim (Dict.get address m.address_to_controllers) [
  | none ↦ []
  | some set ↦ filter (λ c. not (closed c.ref)) set
]

unfoldable pub get_connection : String → Manager → Option Controller
get_connection id m = Dict.get id m.controllers

unfoldable pub has_subscribers : String → Manager → Bool
has_subscribers address m = elim (Dict.get address m.address_to_controllers) [
  | none ↦ false
  | some set ↦ ltb 0 (length set)
]

pub data Call : Type 0 where
  registers : Controller → Call
  subscribes unsubscribes : String → Controller → Call
  removes : Controller → Call

unfoldable pub step : Call → Manager → Manager
step (registers c) m = register c m
step (subscribes address c) m = subscribe address c m
step (unsubscribes address c) m = unsubscribe address c m
step (removes c) m = remove_connection c m

-- The state after some calls, the last of them at the head of the list.
unfoldable pub after : List Call → Manager
unfolding step
after [] = empty
after (c ∷ cs) = step c (after cs)
