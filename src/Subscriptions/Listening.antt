-- ===== src/Subscriptions/Listening.antt =====
-- Who is handed the events of an address, read off the calls alone.
use rai_flow.Prelude.{
  ℕ, String, Bool, true, false, not, ◌&&◌, ◌||◌, ◌≡◌, refl, ◌∙◌, ap, Option, none, some, List, [],
  ◌∷◌, map, ◌==◌, string_eq, nat_eq, filter, any, or_default, arith, eq_iff, Bool-cases,
  Option-cases, inl, inr,
}
use mathlib.Core.Option
use rai_flow.Prelude.Dict
use rai_flow.Prelude.Dict.{Dict, get-set, get-delete}
use rai_flow.Subscriptions.Manager.{
  Controller, Manager, is_same, add, remove, is_empty, register, subscribe, unsubscribe, drop_empty,
  remove_connection, publish, Call, registers, subscribes, unsubscribes, removes, step, after,
}

-- The last call about an address and a controller, or about the controller's connection, was a
-- subscription.
unfoldable pub is_subscribed : String → Controller → List Call → Bool
is_subscribed address c [] = false
is_subscribed address c (registers d ∷ cs) = is_subscribed address c cs
is_subscribed address c (subscribes a d ∷ cs) =
    a == address && is_same c d || is_subscribed address c cs
is_subscribed address c (unsubscribes a d ∷ cs) =
    not (a == address && is_same c d) && is_subscribed address c cs
is_subscribed address c (removes d ∷ cs) = not (is_same c d) && is_subscribed address c cs

abbrev is_in : Controller → Option (List Controller) → Bool
is_in c none = false
is_in c (some set) = any (is_same c) set

any-remove :
    (c d : Controller) (set : List Controller)
    → any (is_same c) (remove d set) ≡ (not (is_same c d) && any (is_same c) set)
any-remove c d [] = ground arith
any-remove c d (e ∷ set) = ground (arith, any-remove c d set)

any-add :
    (c d : Controller) (set : List Controller)
    → any (is_same c) (add d set) ≡ (is_same c d || any (is_same c) set)
any-add c d [] = ground arith
any-add c d (e ∷ set) = ground (arith, any-add c d set)

is_in-drop_empty :
    (c : Controller) (address : String) (addresses : List String)
    (sets : Dict String (List Controller))
    → is_in c (Dict.get address (drop_empty addresses sets)) ≡ is_in c (Dict.get address sets)
unfolding drop_empty
is_in-drop_empty c address [] sets = refl
is_in-drop_empty c address (a ∷ addresses) sets =
    is_in-drop_empty c address addresses _
    ∙ grind (arith, get-delete a address sets, eq_iff a address)

get-map-remove :
    (d : Controller) (address : String) (sets : Dict String (List Controller))
    → Dict.get address (map (λ (e : String × List Controller). (e.0, remove d e.1)) sets)
      ≡ Option.map (remove d) (Dict.get address sets)
unfolding Dict.get
get-map-remove d address [] = refl
get-map-remove d address ((a, set) ∷ sets) = ground (arith, get-map-remove d address sets)

any-is_empty :
    (c : Controller) (set : List Controller) → is_empty set ≡ true → any (is_same c) set ≡ false
any-is_empty c [] h = refl
any-is_empty c (e ∷ set) h = cc

is_in-unsubscribe :
    (a address : String) (c d : Controller) (m : Manager)
    → is_in c (Dict.get address (unsubscribe a d m).address_to_controllers)
      ≡ (not (a == address && is_same c d) && is_in c (Dict.get address m.address_to_controllers))
unfolding unsubscribe
is_in-unsubscribe a address c d m =
    let sets = m.address_to_controllers in
    elim (Option-cases (Dict.get a sets)) [
      | inl missing ↦ ground (arith, eq_iff a address)
      | inr (set, found) ↦ elim (Bool-cases (is_empty (remove d set))) [
        | inl none_left ↦ ground (
          arith,
          get-delete a address sets,
          any-remove c d set,
          any-is_empty c (remove d set) none_left,
          eq_iff a address,
        )
        | inr some_left ↦
            ground
              (arith, get-set a address (remove d set) sets, any-remove c d set, eq_iff a address)
      ]
    ]

is_in-after :
    (address : String) (c : Controller) (cs : List Call)
    → is_in c (Dict.get address (after cs).address_to_controllers) ≡ is_subscribed address c cs
unfolding after step is_subscribed register subscribe unsubscribe remove_connection
is_in-after address c [] = unfold Dict.get in refl
is_in-after address c (registers d ∷ cs) = is_in-after address c cs
is_in-after address c (subscribes a d ∷ cs) =
    let sets = (after cs).address_to_controllers in
    let old = or_default (Dict.get a sets) [] in
    grind (
      arith,
      get-set a address (add d old) sets,
      any-add c d old,
      is_in-after address c cs,
      eq_iff a address,
    )
is_in-after address c (unsubscribes a d ∷ cs) =
    is_in-unsubscribe a address c d (after cs) ∙ ground (arith, is_in-after address c cs)
is_in-after address c (removes d ∷ cs) =
    let sets = (after cs).address_to_controllers in
    let cleaned = map (λ (e : String × List Controller). (e.0, remove d e.1)) sets in
    let shown : is_in c (Dict.get address cleaned)
        ≡ (not (is_same c d) && is_in c (Dict.get address sets)) =
      grind (arith, get-map-remove d address sets, any-remove) in
    is_in-drop_empty c address (map (λ e. e.0) cleaned) cleaned
    ∙ ground (arith, shown, is_in-after address c cs)

any-open :
    (closed : ℕ → Bool) (c : Controller) (set : List Controller)
    → any (is_same c) (filter (λ d. not (closed d.ref)) set)
      ≡ (any (is_same c) set && not (closed c.ref))
any-open closed c [] = refl
any-open closed c (e ∷ set) = elim (Bool-cases (is_same c e)) [
  | inl here ↦
      let at : c.ref ≡ e.ref = ground arith in
      let same = ap closed at in ground (arith, same, any-open closed c set)
  | inr other ↦ ground (arith, any-open closed c set)
]

-- After any sequence of calls, an event of an address is handed to a controller exactly where the
-- controller is not closed and the calls leave it subscribed to the address.
pub publish-after :
    (closed : ℕ → Bool) (address : String) (c : Controller) (cs : List Call)
    → any (is_same c) (publish closed address (after cs))
      ≡ (is_subscribed address c cs && not (closed c.ref))
unfolding publish
publish-after closed address c cs =
    elim (Option-cases (Dict.get address (after cs).address_to_controllers)) [
      | inl missing ↦ ground (arith, is_in-after address c cs)
      | inr (set, found) ↦ ground (arith, is_in-after address c cs, any-open closed c set)
    ]
