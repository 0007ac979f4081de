-- ===== src/Semaphore/Fair.antt =====
-- The slots and the queue of a semaphore over sequences of calls.
use rai_flow.Prelude.{
  ℕ, ◌≤◌, Bool, true, false, ◌≡◌, refl, ap, ◌∙◌, sym, Option, none, some, List, [], ◌∷◌, ◌++◌, ltb,
  arith, inl, inr, ◌⊎◌, Bool-cases,
}
use mathlib.Core.List.{append_assoc, append-nil}
use rai_flow.Semaphore.Slots.{
  Slots, acquire, release, Call, acquires, releases, step, run, granted_first,
}

abbrev pub is_nil : List ℕ → Bool
is_nil [] = true
is_nil (x ∷ xs) = false

-- At most the allowed number run, and callers wait only while all slots are taken.
pub record IsFair (concurrency : ℕ) (s : Slots) : Type 0 where
  pub bounded : s.running ≤ concurrency
  pub busy : is_nil s.queue ≡ false → s.running ≡ concurrency

queue-cases : (q : List ℕ) → (q ≡ []) ⊎ ((next : ℕ) × (rest : List ℕ) × (q ≡ next ∷ rest))
queue-cases [] = inl refl
queue-cases (next ∷ rest) = inr (next, rest, refl)

step-IsFair :
    (concurrency : ℕ) (c : Call) (s : Slots)
    → IsFair concurrency s
    → IsFair concurrency (step concurrency c s).0
unfolding step acquire release
step-IsFair n (acquires caller) s h = elim (Bool-cases (ltb s.running n)) [
  | inl free ↦ record { bounded = ground arith; busy = λ e. ground (arith, h.busy) }
  | inr full ↦ record { bounded = ground (arith, h.bounded); busy = λ e. ground (arith, h.bounded) }
]
step-IsFair n releases s h = elim (queue-cases s.queue) [
  | inl idle ↦
      rw (step, release, idle)
        (record { bounded = omega (arith, h.bounded); busy = λ e. absurd (ground (arith, idle)) })
  | inr (next, rest, waiting) ↦
      let all_taken = h.busy (rw waiting refl) in
      rw (step, release, waiting) (record { bounded = h.bounded; busy = λ e. all_taken })
]

-- The callers of the `acquire` calls, in order.
unfoldable pub arrivals : List Call → List ℕ
arrivals [] = []
arrivals (acquires caller ∷ cs) = caller ∷ arrivals cs
arrivals (releases ∷ cs) = arrivals cs

-- What one call does to the order: those granted, then those waiting.
step-order :
    (concurrency : ℕ) (c : Call) (s : Slots) (cs : List Call)
    → IsFair concurrency s
    → granted_first (step concurrency c s).1 ((step concurrency c s).0.queue ++ arrivals cs)
      ≡ s.queue ++ arrivals (c ∷ cs)
unfolding step acquire release arrivals
step-order n (acquires caller) s cs h = elim (Bool-cases (ltb s.running n)) [
  | inl free ↦ elim (queue-cases s.queue) [
    | inl idle ↦ rw (step, acquire, arrivals, free, idle) refl
    | inr (next, rest, waiting) ↦
        let all_taken = h.busy (rw waiting refl) in absurd (ground (arith, all_taken))
  ]
  | inr full ↦ rw (step, acquire, arrivals, full) (append_assoc s.queue (caller ∷ []) (arrivals cs))
]
step-order n releases s cs h = elim (queue-cases s.queue) [
  | inl idle ↦ rw (step, release, arrivals, idle) (ap (λ (q : List ℕ). q ++ arrivals cs) idle)
  | inr (next, rest, waiting) ↦ rw (step, release, arrivals, waiting) refl
]

granted_first-append :
    (granted : Option ℕ) (xs ys : List ℕ)
    → granted_first granted xs ++ ys ≡ granted_first granted (xs ++ ys)
granted_first-append none xs ys = refl
granted_first-append (some x) xs ys = refl

-- From a fair state, every sequence of calls leads to a fair state, and the callers granted a slot on
-- the way, followed by those that wait then, are those that waited before followed by the new ones in
-- the order of their calls.
pub run-IsFair :
    (concurrency : ℕ) (cs : List Call) (s : Slots)
    → IsFair concurrency s
    → IsFair concurrency (run concurrency cs s).0
      × ((run concurrency cs s).1 ++ (run concurrency cs s).0.queue ≡ s.queue ++ arrivals cs)
unfolding run
run-IsFair n [] s h = (h, unfold arrivals in sym (append-nil s.queue))
run-IsFair n (c ∷ cs) s h =
    let (fair, order) = run-IsFair n cs (step n c s).0 (step-IsFair n c s h) in
    (
      fair,
      granted_first-append (step n c s).1 _ _
          ∙ ap (granted_first (step n c s).1) order
          ∙ step-order n c s cs h,
    )
