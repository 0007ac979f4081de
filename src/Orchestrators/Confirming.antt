-- ===== src/Orchestrators/Confirming.antt =====
-- The loop of `confirmPublishedSend`, round by round.
use rai_flow.Prelude.{ℕ, suc, zero, ◌+◌, ◌*◌, ◌≤◌, ◌≡◌, refl, String, some, ltb, arith}
use rai_flow.Model.{send_status_eq}
use rai_flow.Orchestrators.World.{World, Answer, gives, throws, Outside, clock, sleep}
use rai_flow.Orchestrators.Ticks.{Callback, confirm_until, confirm_published_send}
use rai_flow.Orchestrators.Hoare.{
  Pred, After, Holds, >>=-Holds, pure-Holds, read-Holds, if-Holds, IsStable, Holds-weaken,
}
use rai_flow.Orchestrators.Polling.{poll-Holds}

-- The clock does not run back.
abbrev pub IsMonotone : Outside → Type 0
IsMonotone o = (k : ℕ) → o.now k ≤ o.now (suc k)

-- Enough rounds are left to sleep past the deadline.
abbrev InTime : Outside → (deadline fuel : ℕ) → Pred
InTime o deadline fuel w = deadline ≤ clock o w + 2000 * fuel

abbrev pub Never : Pred
Never w = ⊥

sleep-InTime :
    (o : Outside) (deadline fuel : ℕ)
    → Holds (InTime o deadline (suc fuel)) (sleep 2000) (λ a. InTime o deadline fuel) Never
unfolding sleep
sleep-InTime o deadline fuel = record { runs = λ w h. omega (arith, h) }

confirm_until-ends :
    (o : Outside) (on_confirmed : Callback) (deadline : ℕ) (id hash : String) (fuel : ℕ)
    → IsMonotone o
    → Holds
        (InTime o deadline fuel)
        (confirm_until o on_confirmed deadline id hash (suc fuel))
        (λ a w. a ≡ some tt)
        Never
unfolding confirm_until
confirm_until-ends o on_confirmed deadline id hash zero mono =
    >>=-Holds (read-Holds (clock o)) (λ now.
      if-Holds (ltb now deadline) (λ e. record { runs = λ w (h, at). absurd (ground arith) })
        (λ e. pure-Holds (some tt) (λ w h. refl)))
confirm_until-ends o on_confirmed deadline id hash (suc fuel) mono =
    >>=-Holds (read-Holds (clock o)) (λ now.
      if-Holds (ltb now deadline)
        (λ e.
          Holds-weaken
            (>>=-Holds (poll-Holds on_confirmed id hash stable (λ w db h. h)) (λ done.
              if-Holds done (λ d. pure-Holds (some tt) (λ w h. refl))
                (λ d.
                  >>=-Holds (sleep-InTime o deadline fuel)
                    (λ slept. confirm_until-ends o on_confirmed deadline id hash fuel mono))))
            (λ w h. h.0) (λ a w h. h) (λ w h. h))
        (λ e. pure-Holds (some tt) (λ w h. refl)))
  where
    stable : IsStable o (InTime o deadline (suc fuel))
    stable = record { keeps = λ w h. omega (arith, h, mono w.calls) }

after_never :
    {A : Type 0} (a : A) (outcome : World × Answer A)
    → After (λ b w. b ≡ a) Never outcome
    → outcome.1 ≡ gives a
after_never a (w, throws f) h = absurd h
after_never a (w, gives b) h = ground (arith, h)

-- The loop that waits for a confirmation ends within its 61 rounds, without an error, where the clock
-- does not run back.
pub confirm_published_send-ends :
    (o : Outside) (on_confirmed : Callback) (id hash : String) (w : World)
    → IsMonotone o
    → (confirm_published_send o on_confirmed id hash w).1 ≡ gives (some tt)
unfolding confirm_published_send
confirm_published_send-ends o on_confirmed id hash w mono =
    after_never (some tt) (confirm_published_send o on_confirmed id hash w) (
      (confirm_until-ends o on_confirmed (clock o w + 120000) id hash 60 mono).runs w (omega arith))
