-- ===== src/EventLog/Complete.antt =====
-- The pages of `listEvents`, and what their next cursors ask for.
use rai_flow.Prelude.{
  ℕ, zero, suc, ◌+◌, ◌≤◌, ◌<◌, Bool, true, false, ◌&&◌, ◌≡◌, refl, ap, ◌∙◌, none, some, List, [],
  ◌∷◌, ◌++◌, string_eq, ltb, min, max, filter, take, length, arith, All, All-filter, inl, inr,
  Bool-cases, is_some, ◌⊎◌, Option-cases,
}
use rai_flow.Model.{Event}
use rai_flow.Model.Errors.{ok}
use rai_flow.EventLog.Pages.{
  After, from_start, sequence, malformed, Options, sequence_of, fits, is_after, matching,
  well_formed, list, Page, last_sequence, page_of, list_events,
}

-- The events of a table have sequences, and these ascend.
abbrev pub Ascending : List Event → Type 0
Ascending [] = Unit
Ascending (e ∷ es) =
    (is_some e.sequence ≡ true)
    × (All (λ (x : Event). sequence_of e < sequence_of x) es × Ascending es)

drop : ℕ → List Event → List Event
drop zero es = es
drop (suc n) [] = []
drop (suc n) (e ∷ es) = drop n es

take-drop : (n : ℕ) (es : List Event) → take n es ++ drop n es ≡ es
unfolding drop
take-drop zero es = refl
take-drop (suc n) [] = refl
take-drop (suc n) (e ∷ es) = ap (◌∷◌ e) (take-drop n es)

take-take : (n : ℕ) (es : List Event) → take n (take (suc n) es) ≡ take n es
take-take zero es = refl
take-take (suc n) [] = refl
take-take (suc n) (e ∷ es) = ap (◌∷◌ e) (take-take n es)

Ascending-filter : (p : Event → Bool) (es : List Event) → Ascending es → Ascending (filter p es)
Ascending-filter p [] h = tt
Ascending-filter p (e ∷ es) (k, (hs, rest)) = elim (Bool-cases (p e)) [
  | inl keep ↦ rw keep (
    k,
    (All-filter (λ (x : Event). sequence_of e < sequence_of x) p es hs, Ascending-filter p es rest),
  )
  | inr out ↦ rw out (Ascending-filter p es rest)
]

filter_above :
    (n : ℕ) (es : List Event)
    → All (λ (x : Event). n < sequence_of x) es
    → filter (is_after (sequence n)) es ≡ es
filter_above n [] h = refl
filter_above n (e ∷ es) (h, hs) = ground (arith, filter_above n es hs)

last_above :
    (n k c : ℕ) (es : List Event)
    → All (λ (x : Event). n < sequence_of x) es
    → last_sequence (take k es) ≡ some c
    → n < c
last_above n zero c es h e = cc
last_above n (suc k) c [] h e = cc
last_above n (suc zero) c (x ∷ es) (h, hs) e = ground arith
last_above n (suc (suc k)) c (x ∷ []) (h, hs) e = ground arith
last_above n (suc (suc k)) c (x ∷ y ∷ es) (h, hs) e = last_above n (suc k) c (y ∷ es) hs e

-- What lies after the last event of a page is what the page leaves.
filter-last :
    (n c : ℕ) (es : List Event)
    → Ascending es
    → last_sequence (take (suc n) es) ≡ some c
    → filter (is_after (sequence c)) es ≡ drop (suc n) es
unfolding drop
filter-last n c [] h e = refl
filter-last zero c (x ∷ es) (k, (hs, rest)) e =
    let at : sequence_of x ≡ c = ground arith in
    let above = filter_above c es (rw at at hs) in ground (arith, above)
filter-last (suc n) c (x ∷ []) (k, (hs, rest)) e =
    let at : sequence_of x ≡ c = ground arith in ground arith
filter-last (suc n) c (x ∷ y ∷ es) (k, (hs, rest)) e =
    let below : sequence_of x < c = last_above (sequence_of x) (suc n) c (y ∷ es) hs e in
    let rest_of = filter-last n c (y ∷ es) rest e in ground (arith, rest_of)

filter-filter :
    (p q r : Event → Bool) (es : List Event)
    → ((x : Event) → p x ≡ (q x && r x))
    → filter p es ≡ filter r (filter q es)
filter-filter p q r [] h = refl
filter-filter p q r (x ∷ es) h = ground (arith, h x, filter-filter p q r es h)

All-filter_self :
    (p : Event → Bool) (n : ℕ) (es : List Event)
    → ((x : Event) → p x ≡ true → n < sequence_of x)
    → All (λ (x : Event). n < sequence_of x) (filter p es)
All-filter_self p n [] h = tt
All-filter_self p n (x ∷ es) h = elim (Bool-cases (p x)) [
  | inl keep ↦ rw keep (h x keep, All-filter_self p n es h)
  | inr out ↦ rw out (All-filter_self p n es h)
]

-- A later cursor asks for no event that an earlier one does not.
later :
    (a : After) (q : Event → Bool) (k c : ℕ) (events : List Event) (x : Event)
    → last_sequence (take k (filter (λ e. is_after a e && q e) events)) ≡ some c
    → is_after (sequence c) x ≡ true
    → is_after a x ≡ true
later from_start q k c events x e h = refl
later malformed q k c events x e h = refl
later (sequence n) q k c events x e h =
    let above =
      All-filter_self (λ e. is_after (sequence n) e && q e) n events (λ y t. ground arith) in
    let less = last_above n k c (filter (λ e. is_after (sequence n) e && q e) events) above e in
    ground (arith, less)

-- What the next cursor asks for is what the page leaves.
matching-next :
    (o : Options) (n c : ℕ) (events : List Event)
    → Ascending events
    → last_sequence (take (suc n) (matching o events)) ≡ some c
    → matching (record o { after = sequence c }) events ≡ drop (suc n) (matching o events)
matching-next o n c events asc e =
    filter-filter _ (λ x. is_after o.after x && fits o x) (is_after (sequence c)) events
      (λ x. ground (arith, later o.after (fits o) (suc n) c events x e))
    ∙ filter-last n c (matching o events) (Ascending-filter _ events asc) e

length-take_more : (n : ℕ) (es : List Event) → ltb n (length (take (suc n) es)) ≡ ltb n (length es)
length-take_more zero [] = refl
length-take_more zero (e ∷ es) = ground arith
length-take_more (suc n) [] = refl
length-take_more (suc n) (e ∷ es) = ground (arith, length-take_more n es)

take_all : (n : ℕ) (es : List Event) → ltb n (length es) ≡ false → take (suc n) es ≡ es
take_all n [] h = refl
take_all zero (e ∷ es) h = absurd (ground arith)
take_all (suc n) (e ∷ es) h = ap (◌∷◌ e) (take_all n es (ground arith))

last_sequence-some :
    (n : ℕ) (e : Event) (es : List Event)
    → Ascending (e ∷ es)
    → is_some (last_sequence (take (suc n) (e ∷ es))) ≡ true
last_sequence-some zero e es (k, rest) = k
last_sequence-some (suc n) e [] (k, rest) = k
last_sequence-some (suc n) e (x ∷ es) (k, (hs, rest)) = last_sequence-some n x es rest

-- Either the page is all there is, or its cursor asks for exactly the rest.
abbrev pub Completes : Options → List Event → Page → Type 0
Completes o events page =
    ((page.next_cursor ≡ none) × (page.events ≡ matching o events))
    ⊎ ((c : ℕ) × (page.next_cursor ≡ some c)
        × (page.events ++ matching (record o { after = sequence c }) events ≡ matching o events))

page_of-last :
    (n : ℕ) (es : List Event)
    → ltb n (length es) ≡ false
    → page_of n (take (suc n) es) ≡ record { events = es; next_cursor = none }
unfolding page_of
page_of-last n es h = rw (length-take_more n es, h, take_all n es h) refl

page_of-more :
    (n : ℕ) (es : List Event)
    → ltb n (length es) ≡ true
    → page_of n (take (suc n) es)
      ≡ record { events = take n es; next_cursor = last_sequence (take n es) }
unfolding page_of
page_of-more n es h = rw (length-take_more n es, h, take-take n es) refl

last_of_more :
    (n : ℕ) (es : List Event)
    → Ascending es
    → ltb (suc n) (length es) ≡ true
    → (c : ℕ) × (last_sequence (take (suc n) es) ≡ some c)
last_of_more n [] asc h = absurd (ground arith)
last_of_more n (e ∷ es) asc h = elim (Option-cases (last_sequence (take (suc n) (e ∷ es)))) [
  | inl missing ↦ absurd (ground (arith, last_sequence-some n e es asc))
  | inr (c, found) ↦ (c, found)
]

page_of-Completes :
    (o : Options) (n : ℕ) (events : List Event)
    → Ascending events
    → Completes o events (page_of (suc n) (take (suc (suc n)) (matching o events)))
page_of-Completes o n events asc = elim (Bool-cases (ltb (suc n) (length (matching o events)))) [
  | inr last ↦ rw (page_of-last (suc n) (matching o events) last) (inl (refl, refl))
  | inl more ↦
      let (c, found) = last_of_more n (matching o events) (Ascending-filter _ events asc) more in
      rw (page_of-more (suc n) (matching o events) more) (
        inr (
          c,
          found,
          rw (matching-next o n c events asc found) (take-drop (suc n) (matching o events)),
        ))
]

list_events-page_of :
    (o : Options) (n : ℕ) (events : List Event)
    → o.limit ≡ some (suc n)
    → suc n ≤ 500
    → well_formed o.after ≡ true
    → list_events o events ≡ ok (page_of (suc n) (take (suc (suc n)) (matching o events)))
unfolding list_events list page_of
list_events-page_of o n events limit small well =
    let clamped : max 1 (min (suc n) 500) + 1 ≡ suc (suc n) = omega arith in
    let more : suc (suc n) + 1 ≡ suc (suc (suc n)) = omega arith in
    rw (limit, well, clamped, more, take-take (suc (suc n)) (matching o events)) refl

-- For events whose sequences ascend, a limit from 1 to 500 and a cursor that is well formed, the
-- listing succeeds. Either its page holds all that was asked for and there is no next cursor, or the
-- page followed by what the next cursor asks for is all that was asked for, in order.
pub list_events-Completes :
    (o : Options) (n : ℕ) (events : List Event)
    → Ascending events
    → o.limit ≡ some (suc n)
    → suc n ≤ 500
    → well_formed o.after ≡ true
    → (page : Page) × (list_events o events ≡ ok page) × Completes o events page
list_events-Completes o n events asc limit small well = (
  page_of (suc n) (take (suc (suc n)) (matching o events)),
  list_events-page_of o n events limit small well,
  page_of-Completes o n events asc,
)
