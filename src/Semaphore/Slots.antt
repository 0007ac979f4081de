-- ===== src/Semaphore/Slots.antt =====
-- The state and the operations of `Semaphore`. A caller is a number: the promise that `acquire` gives
-- it is resolved when the caller is granted a slot.
use rai_flow.Prelude.{ℕ, ◌+◌, ◌-◌, Option, none, some, List, [], ◌∷◌, ◌++◌, ltb, if◌then◌else◌}

pub record Slots : Type 0 where
  pub queue : List ℕ
  pub running : ℕ

abbrev pub empty : Slots
empty = record { queue = []; running = 0 }

-- The state, and the caller that is granted a slot.
unfoldable pub acquire : ℕ → ℕ → Slots → Slots × Option ℕ
acquire concurrency caller s =
    if ltb s.running concurrency
    then (record s { running = s.running + 1 }, some caller)
    else (record s { queue = s.queue ++ caller ∷ [] }, none)

-- A release is by a caller that holds a slot, so that `running` is not 0.
unfoldable pub release : Slots → Slots × Option ℕ
release s = elim s.queue [
  | [] ↦ (record s { running = s.running - 1 }, none)
  | next ∷ rest ↦ (record s { queue = rest }, some next)
]

pub data Call : Type 0 where
  acquires : (caller : ℕ) → Call
  releases : Call

unfoldable pub step : ℕ → Call → Slots → Slots × Option ℕ
unfolding acquire release
step concurrency (acquires caller) s = acquire concurrency caller s
step concurrency releases s = release s

abbrev pub granted_first : Option ℕ → List ℕ → List ℕ
granted_first none callers = callers
granted_first (some caller) callers = caller ∷ callers

-- The state after some calls, and the callers granted on the way, in order.
unfoldable pub run : ℕ → List Call → Slots → Slots × List ℕ
run concurrency [] s = (s, [])
run concurrency (c ∷ cs) s =
    let (s1, granted) = step concurrency c s in
    let (s2, rest) = run concurrency cs s1 in (s2, granted_first granted rest)
