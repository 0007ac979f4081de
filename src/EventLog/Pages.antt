-- ===== src/EventLog/Pages.antt =====
-- The queries. Events are listed in the order of the table, which is that of their sequence: they are
-- appended with AUTOINCREMENT.
use rai_flow.Prelude.{
  ℕ, ◌+◌, String, Bool, true, false, ◌&&◌, Option, none, some, List, [], ◌∷◌, ◌==◌, string_eq, ltb,
  min, max, if◌then◌else◌, filter, take, length, or_default,
}
use rai_flow.Model.{Event}
use rai_flow.Model.Errors.{Result, ok, err, plain, ◌>>=◌}

-- `after`: absent or empty, digits, or any other text.
pub data After : Type 0 where
  from_start : After
  sequence : ℕ → After
  malformed : After

-- `EventQueryOptions`; an empty text counts as absent.
pub record Options : Type 0 where
  pub after : After
  pub limit : Option ℕ
  pub type : Option String
  pub resource_type : Option String
  pub resource_id : Option String

abbrev pub sequence_of : Event → ℕ
sequence_of e = or_default e.sequence 0

abbrev pub wants : Option String → String → Bool
wants none value = true
wants (some wanted) value = value == wanted

-- The conditions other than the cursor.
abbrev pub fits : Options → Event → Bool
fits o e =
    wants o.type e.type
    && wants o.resource_type e.resource_type
    && wants o.resource_id e.resource_id

abbrev pub is_after : After → Event → Bool
is_after (sequence n) e = ltb n (sequence_of e)
is_after _ e = true

-- The rows that the query is about, before its LIMIT.
abbrev pub matching : Options → List Event → List Event
matching o events = filter (λ e. is_after o.after e && fits o e) events

abbrev pub well_formed : After → Bool
well_formed malformed = false
well_formed _ = true

unfoldable pub list : Options → List Event → Result (List Event)
list o events =
    if well_formed o.after
    then ok (take limit (take (limit + 1) (matching o events)))
    else err (plain "event cursor must be a positive integer sequence")
  where
    limit : ℕ
    limit = or_default o.limit 100

-- `PaginatedEventsResponse`, with the cursor as a number.
pub record Page : Type 0 where
  pub events : List Event
  pub next_cursor : Option ℕ

abbrev pub last_sequence : List Event → Option ℕ
last_sequence [] = none
last_sequence (e ∷ []) = e.sequence
last_sequence (e ∷ es) = last_sequence es

unfoldable pub page_of : ℕ → List Event → Page
page_of limit rows =
    if ltb limit (length rows)
    then record { events = take limit rows; next_cursor = last_sequence (take limit rows) }
    else record { events = rows; next_cursor = none }

unfoldable pub list_events : Options → List Event → Result Page
unfolding list page_of
list_events o events = do
  rows ← list (record o { limit = some (max 1 (min limit 500) + 1) }) events
  ok (page_of limit rows)
  where
    limit : ℕ
    limit = or_default o.limit 100
