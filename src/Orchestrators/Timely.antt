-- ===== src/Orchestrators/Timely.antt =====
-- A send whose block the node confirms in time.
use rai_flow.Prelude.{
  ℕ, suc, zero, ◌+◌, ◌*◌, ◌≤◌, ◌<◌, ◌≡◌, refl, String, Bool, true, false, Option, none, some, ltb,
  arith, inl, inr, ◌⊎◌, is_some, string_eq, ap, ◌∙◌,
}
use rai_flow.Model.{confirmed, send_status_eq}
use rai_flow.Storage.Refunds.Queue.{send_by_id}
use rai_flow.Orchestrators.World.{
  World, Answer, gives, throws, Run, Outside, clock, sleep, ask, ◌>>=◌, pure,
}
use rai_flow.Orchestrators.Ticks.{
  Callback, is_status, poll, confirm_until, rounds, confirm_published_send,
}
use rai_flow.Orchestrators.Hoare.{
  Pred, After, Holds, >>=-Holds, catch-Holds, pure-Holds, read-Holds, or-Holds, option-Holds,
  if-Holds, Holds-weaken, after_state,
}
use rai_flow.Orchestrators.Confirming.{IsMonotone, Never}
use rai_flow.Orchestrators.Confirmed.{KeepsSends}
use rai_flow.Orchestrators.Confirmed as Confirmed

module _ (o : Outside) (on_confirmed : Callback) (id : String)
    (keeps : KeepsSends on_confirmed) where
  abbrev IsThere : Pred
  IsThere = Confirmed.IsThere o on_confirmed id keeps

  abbrev IsConfirmed : Pred
  IsConfirmed = Confirmed.IsConfirmed o on_confirmed id keeps

  -- The node confirms the block at the call `last`, and the deadline is after it.
  module _ (hash : String) (deadline last : ℕ) (mono : IsMonotone o)
      (answer : o.block_info last hash ≡ gives (some true)) where
    -- There are `n` polls to go before the one that is answered.
    record Waits (n : ℕ) (w : World) : Type 0 where
      there : IsThere w
      at : w.calls + n ≡ last
      early : o.now last + w.slept + 2000 * n < deadline

    -- The same after the poll and before the sleep.
    record Sleepy (n : ℕ) (w : World) : Type 0 where
      there : IsThere w
      at : w.calls + n ≡ last
      early : o.now last + w.slept + 2000 * suc n < deadline

    abbrev Asked : ℕ → Option Bool → Pred
    Asked zero info w = (info ≡ some true) × IsThere w
    Asked (suc n) info w = Sleepy n w

    abbrev Failed : ℕ → Pred
    Failed zero w = ⊥
    Failed (suc n) w = Sleepy n w

    abbrev Waited : ℕ → Bool → Pred
    Waited zero done w = IsConfirmed w
    Waited (suc n) true w = IsConfirmed w
    Waited (suc n) false w = IsConfirmed w ⊎ Sleepy n w

    answered : (k : ℕ) → k + 0 ≡ last → o.block_info k hash ≡ gives (some true)
    answered k e =
        let same : k ≡ last = omega (arith, e) in ap (λ j. o.block_info j hash) same ∙ answer

    sleepy :
        (n : ℕ) (w w' : World)
        → w'.calls ≡ suc w.calls
        → w'.slept ≡ w.slept
        → w'.db ≡ w.db
        → Waits (suc n) w
        → Sleepy n w'
    sleepy n w w' c s d h = record {
      there = rw d h.there;
      at = omega (arith, c, h.at);
      early = omega (arith, s, h.early);
    }

    after_info :
        (n : ℕ) (w w' : World) (a : Answer (Option Bool))
        → a ≡ o.block_info w.calls hash
        → w'.calls ≡ suc w.calls
        → w'.slept ≡ w.slept
        → w'.db ≡ w.db
        → Waits n w
        → After (Asked n) (Failed n) (w', a)
    after_info zero w w' (throws f) e c s d h =
        let known = e ∙ answered w.calls h.at in absurd (ground arith)
    after_info zero w w' (gives info) e c s d h =
        let known = e ∙ answered w.calls h.at in (ground arith, rw d h.there)
    after_info (suc n) w w' (throws f) e c s d h = sleepy n w w' c s d h
    after_info (suc n) w w' (gives info) e c s d h = sleepy n w w' c s d h

    ask-Waits : (n : ℕ) → Holds (Waits n) (ask o (λ k. o.block_info k hash)) (Asked n) (Failed n)
    unfolding ask
    ask-Waits n = record {
      runs = λ w h. after_info n w _ (o.block_info w.calls hash) refl refl refl refl h;
    }

    has_confirmed : (n : ℕ) (done : Bool) (w : World) → IsConfirmed w → Waited n done w
    has_confirmed zero done w h = h
    has_confirmed (suc n) true w h = h
    has_confirmed (suc n) false w h = inl h

    Asked-IsThere : (n : ℕ) (info : Option Bool) (w : World) → Asked n info w → IsThere w
    Asked-IsThere zero info w h = h.1
    Asked-IsThere (suc n) info w h = h.there

    no_news :
        (n : ℕ) (info : Option Bool)
        → ¬ (info ≡ some true)
        → Holds (Asked n info) (pure false) (Waited n) (Waited n false)
    no_news zero info other = pure-Holds false (λ w h. absurd (other h.0))
    no_news (suc n) info other = pure-Holds false (λ w h. inr h)

    poll-Waits : (n : ℕ) → Holds (Waits n) (poll o on_confirmed id hash) (Waited n) Never
    unfolding poll
    poll-Waits n =
        catch-Holds
          (>>=-Holds (Holds-weaken (ask-Waits n) (λ w h. h) (λ a w h. h) (failed_waits n)) (λ info.
            option-Holds (Asked n) info (no_news n none (λ e. ground arith)) (λ is_confirmed.
              if-Holds is_confirmed
                (λ e.
                  Holds-weaken (Confirmed.settled o on_confirmed id keeps)
                    (Asked-IsThere n (some is_confirmed)) (λ done w h. has_confirmed n done w h)
                    (has_confirmed n false))
                (λ e. no_news n (some is_confirmed) (λ e'. ground arith)))))
          (λ f. pure-Holds false (λ w h. h))
      where
        failed_waits : (k : ℕ) (w : World) → Failed k w → Waited k false w
        failed_waits zero w h = absurd h
        failed_waits (suc k) w h = inr h

    has_ended : (n : ℕ) (done : Bool) → done ≡ true → (w : World) → Waited n done w → IsConfirmed w
    has_ended zero done d w h = h
    has_ended (suc n) true d w h = h
    has_ended (suc n) false d w h = absurd (ground arith)

    now_le : (k n : ℕ) → o.now k ≤ o.now (k + n)
    now_le k zero =
        let same : o.now k ≡ o.now (k + 0) = ap o.now (omega arith) in omega (arith, same)
    now_le k (suc n) =
        let rest = now_le k n in
        let step = mono (k + n) in
        let same : o.now (suc (k + n)) ≡ o.now (k + suc n) = ap o.now (omega arith) in
        omega (arith, rest, step, same)

    in_time : (n : ℕ) (w : World) → Waits n w → clock o w < deadline
    in_time n w h =
        let later = now_le w.calls n in
        let there : o.now (w.calls + n) ≡ o.now last = ap o.now h.at in
        omega (arith, later, there, h.early)

    slept_Waits : (n : ℕ) → Holds (Sleepy n) (sleep 2000) (λ a. Waits n) Never
    unfolding sleep
    slept_Waits n = record {
      runs = λ w h. record { there = h.there; at = h.at; early = omega (arith, h.early) };
    }

    slept_IsConfirmed : Holds IsConfirmed (sleep 2000) (λ a. IsConfirmed) IsConfirmed
    unfolding sleep
    slept_IsConfirmed = record { runs = λ w h. h }

    -- What follows a poll that has not returned.
    abbrev next_round : ℕ → Run (Option (Unit {0}))
    next_round fuel = do slept ← sleep 2000; confirm_until o on_confirmed deadline id hash fuel

    round-Waits :
        (n fuel : ℕ)
        → ((done : Bool)
            → done ≡ false
            → Holds (Waited n done) (next_round fuel) (λ a. IsConfirmed) IsConfirmed)
        → Holds
            (Waits n)
            (confirm_until o on_confirmed deadline id hash (suc fuel))
            (λ a. IsConfirmed)
            IsConfirmed
    unfolding confirm_until
    round-Waits n fuel rest = >>=-Holds (read-Holds (clock o)) (λ now.
        if-Holds (ltb now deadline)
          (λ e.
            Holds-weaken
              (>>=-Holds (Holds-weaken (poll-Waits n) (λ w h. h) (λ a w h. h) (λ w h. absurd h))
                (λ done.
                  if-Holds done (λ d. pure-Holds (some tt) (has_ended n done d))
                    (λ d. rest done d)))
              (λ w h. h.0) (λ a w h. h) (λ w h. h))
          (λ e. record { runs = λ w h. absurd (ground (arith, in_time n w h.0, h.1)) }))

    once_confirmed : (fuel : ℕ) → Holds IsConfirmed (next_round fuel) (λ a. IsConfirmed) IsConfirmed
    once_confirmed fuel =
        >>=-Holds slept_IsConfirmed
          (λ slept. Confirmed.loop-IsConfirmed o on_confirmed id keeps hash deadline fuel)

    go_on :
        (n fuel : ℕ)
        → Holds
            (Waits n)
            (confirm_until o on_confirmed deadline id hash fuel)
            (λ a. IsConfirmed)
            IsConfirmed
        → (done : Bool) → done ≡ false
        → Holds (Waited (suc n) done) (next_round fuel) (λ a. IsConfirmed) IsConfirmed
    go_on n fuel again true d = absurd (ground arith)
    go_on n fuel again false d = or-Holds (once_confirmed fuel) (
        >>=-Holds (Holds-weaken (slept_Waits n) (λ w h. h) (λ a w h. h) (λ w h. absurd h))
          (λ slept. again))

    loop-Waits :
        (n fuel : ℕ)
        → n < fuel
        → Holds
            (Waits n)
            (confirm_until o on_confirmed deadline id hash fuel)
            (λ a. IsConfirmed)
            IsConfirmed
    loop-Waits n zero enough = absurd (omega (arith, enough))
    loop-Waits zero (suc fuel) enough = round-Waits zero fuel (λ done d. once_confirmed fuel)
    loop-Waits (suc n) (suc fuel) enough =
        let again = loop-Waits n fuel (omega (arith, enough)) in
        round-Waits (suc n) fuel (λ done d. go_on n fuel again done d)

-- A send that is in the store is confirmed in the end, where the node says at the `n`-th poll from
-- now that its block is confirmed, the clock does not run back and shows at that poll less than 120
-- seconds, and the callback leaves the sends alone.
pub confirm_published_send-IsConfirmed :
    (o : Outside) (on_confirmed : Callback) (id hash : String) (n : ℕ) (w : World)
    → IsMonotone o
    → KeepsSends on_confirmed
    → is_some (send_by_id id w.db.sends) ≡ true
    → o.block_info (w.calls + n) hash ≡ gives (some true)
    → o.now (w.calls + n) + 2000 * n < o.now w.calls + 120000
    → is_status confirmed
        (send_by_id id (confirm_published_send o on_confirmed id hash w).0.db.sends)
      ≡ true
unfolding confirm_published_send
confirm_published_send-IsConfirmed o on_confirmed id hash n w mono keeps there answer early =
    let few : n < rounds =
      omega (arith, early, now_le o on_confirmed id keeps hash 0 _ mono answer w.calls n) in
    let waits =
      loop-Waits o on_confirmed id keeps hash (clock o w + 120000) (w.calls + n) mono answer n
        rounds few in
    after_state (IsConfirmed o on_confirmed id keeps)
      (confirm_published_send o on_confirmed id hash w)
      (waits.runs w (record { there = there; at = refl; early = omega (arith, early) }))
