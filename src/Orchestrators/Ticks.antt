-- ===== src/Orchestrators/Ticks.antt =====
-- `tick`, `publishSend` and `confirmPublishedSend` of packages/runtime/src/send-orchestrator.ts, and
-- the runs of an orchestrator beside the rest of the program.
use rai_flow.Prelude.{
  ℕ, suc, zero, ◌+◌, String, Bool, true, false, Option, none, some, List, [], ◌∷◌, ◌==◌,
  if◌then◌else◌, ltb, not, filter, string_eq,
}
use rai_flow.Model.{Send, SendStatus, queued, published, confirmed, send_status_eq, send_data}
use rai_flow.Model.Errors.{Result}
use rai_flow.Storage.Db.{Db}
use rai_flow.Storage.Refunds.Queue.{send_by_id}
use rai_flow.Storage.Refunds.Sends.{update, list_by_status}
use rai_flow.Orchestrators.World.{
  World, start, Run, ◌>>=◌, pure, throw, catch, Outside, clock, sleep, ask, lift, read, in_db, emit,
  run_under_lease,
}
use rai_flow.Orchestrators.Sends.{
  Source, resolve_source, publish_under_lease, start_confirmation, is_lease_lost, send_event,
}

-- The operation that `publishSend` runs under the lease.
unfoldable pub guarded_publish : Outside → Send → Source → Run (Unit {0})
guarded_publish o send source =
    catch (publish_under_lease o send source)
      (λ failure. if is_lease_lost failure then throw failure else pure tt)

unfoldable pub publish_send : Outside → Send → Run (Unit {0})
publish_send o send =
    catch
      (do
        accounts ← read (λ w. w.db.accounts)
        source ← lift (resolve_source send.source accounts)
        done ← run_under_lease o source.address (guarded_publish o send source)
        pure tt)
      (λ failure. pure tt)

-- The loop over the published sends.
unfoldable pub start_all : List Send → Run (Unit {0})
start_all [] = pure tt
start_all (s ∷ ss) = do
  started ← elim s.block_hash [ none ↦ pure tt | some hash ↦ start_confirmation s.id hash ]
  start_all ss

-- The loop over the queued sends.
unfoldable pub publish_all : Outside → List Send → Run (Unit {0})
publish_all o [] = pure tt
publish_all o (s ∷ ss) = do done ← publish_send o s; publish_all o ss

unfoldable pub tick : Outside → Run (Unit {0})
tick o = do
  ready ← read (λ w. list_by_status queued w.db.sends)
  sent ← read (λ w. list_by_status published w.db.sends)
  started ← start_all sent
  publish_all o ready

abbrev pub is_status : SendStatus → Option Send → Bool
is_status status none = false
is_status status (some s) = s.status == status

-- `onConfirmed`, a callback into the rest of the program.
abbrev pub Callback : Type 0
Callback = Send → Db → Result (Db × Unit {0})

unfoldable pub mark_confirmed : Outside → Callback → String → Run (Unit {0})
mark_confirmed o on_confirmed send_id = do
  here ← read (λ w. w)
  send ← in_db (
      update send_id (record {
        status = confirmed;
        block_hash = none;
        published_at = none;
        confirmed_at = some (clock o here);
      }))
  done ← emit o (send_event o here "send.confirmed" send (send_data send))
  in_db (on_confirmed send)

-- What follows the answer that a block is confirmed.
unfoldable pub settle_confirmed : Outside → Callback → String → Run (Unit {0})
settle_confirmed o on_confirmed send_id = do
  current ← read (λ w. send_by_id send_id w.db.sends)
  elim current [
    | none ↦ mark_confirmed o on_confirmed send_id
    | some send ↦
        if send.status == confirmed
        then in_db (on_confirmed send)
        else mark_confirmed o on_confirmed send_id
  ]

-- One round of the loop of `confirmPublishedSend`: true where it returns.
unfoldable pub poll : Outside → Callback → String → String → Run Bool
poll o on_confirmed send_id hash =
    catch
      (do
        info ← ask o (λ k. o.block_info k hash)
        elim info [
          | none ↦ pure false
          | some is_confirmed ↦
              if is_confirmed
              then (do done ← settle_confirmed o on_confirmed send_id; pure true)
              else pure false
        ])
      (λ failure. pure false)

-- The loop, on fuel: `none` where the fuel has run out.
unfoldable pub confirm_until :
    Outside → Callback → (deadline : ℕ) → String → String → (fuel : ℕ) → Run (Option (Unit {0}))
confirm_until o on_confirmed deadline send_id hash zero = pure none
confirm_until o on_confirmed deadline send_id hash (suc fuel) = do
  now ← read (clock o)
  if ltb now deadline
      then (do
        done ← poll o on_confirmed send_id hash
        if done
            then pure (some tt)
            else (do slept ← sleep 2000; confirm_until o on_confirmed deadline send_id hash fuel))
      else pure (some tt)

-- Rounds of 2 seconds in 120 seconds, and the last look at the clock.
abbrev pub rounds : ℕ
rounds = 61

unfoldable pub confirm_published_send :
    Outside → Callback → String → String → Run (Option (Unit {0}))
confirm_published_send o on_confirmed send_id hash w =
    confirm_until o on_confirmed (clock o w + 120000) send_id hash rounds w

-- What may happen next: a tick, a round of a confirmation, or a change of the other tables by the
-- rest of the program, and the end of a confirmation. The confirmations are polled in any order.
pub data Step (o : Outside) (on_confirmed : Callback) (w : World) : World → Type 0 where
  ticks : Step o on_confirmed w (tick o w).0
  -- `finally(() => confirmingSends.delete(sendId))`
  ends :
      (send_id : String)
      → Step o on_confirmed w (record w {
        confirming = filter (λ (c : String × String). not (c.0 == send_id)) w.confirming;
      })
  polls : (send_id hash : String) → Step o on_confirmed w (poll o on_confirmed send_id hash w).0
  elsewhere : (db : Db) → Step o on_confirmed w (record w { db = db })

pub data Reach (o : Outside) (on_confirmed : Callback) : World → Type 0 where
  begins : (db : Db) → Reach o on_confirmed (start db)
  later :
      {w w' : World} → Reach o on_confirmed w → Step o on_confirmed w w' → Reach o on_confirmed w'
