-- ===== src/Orchestrators/Confirmed.antt =====
-- What `confirmPublishedSend` does to a send that is in the store.
use rai_flow.Prelude.{
  ℕ, suc, zero, ◌≡◌, refl, String, true, false, Option, none, some, List, ◌==◌, ltb, arith, inl,
  inr, Bool-cases, is_some, map, ==-refl, any, string_eq,
}
use rai_flow.Model.{Event, Send, confirmed, send_status_eq}
use rai_flow.Model.Errors.{ok, err, plain, Result}
use rai_flow.Storage.Db.{Db, append_event}
use rai_flow.Storage.Refunds.Queue.{send_by_id}
use rai_flow.Storage.Refunds.Sends.{
  Patch, patched, update, replaced, send_by_id-id, send_by_id-replaced,
}
use rai_flow.Orchestrators.World.{World, Outside, clock, sleep, in_db, emit, ◌>>=◌, pure}
use rai_flow.Orchestrators.Ticks.{
  Callback, is_status, mark_confirmed, settle_confirmed, poll, confirm_until,
}
use rai_flow.Orchestrators.Hoare.{
  Pred, After, Holds, >>=-Holds, catch-Holds, pure-Holds, read-Holds, read_any-Holds, ask_any-Holds,
  option-Holds, if-Holds, Holds-weaken,
}

-- What the callback is taken to do: it leaves the sends alone.
abbrev pub KeepsSends : Callback → Type 0
KeepsSends on_confirmed =
    (s : Send) (db db' : Db) → on_confirmed s db ≡ ok (db', tt) → db'.sends ≡ db.sends

module _ (o : Outside) (on_confirmed : Callback) (id : String)
    (keeps : KeepsSends on_confirmed) where
  abbrev pub IsThere : Pred
  IsThere w = is_some (send_by_id id w.db.sends) ≡ true

  abbrev pub IsConfirmed : Pred
  IsConfirmed w = is_status confirmed (send_by_id id w.db.sends) ≡ true

  after_callback :
      (w : World) (r : Result (Db × Unit {0}))
      → ((db' : Db) → r ≡ ok (db', tt) → db'.sends ≡ w.db.sends)
      → IsConfirmed w
      → After (λ (a : Unit {0}). IsConfirmed) IsConfirmed (in_db (λ db. r) w)
  unfolding in_db
  after_callback w (err e) same h = h
  after_callback w (ok (db', tt)) same h = rw (same db' refl) h

  callback-IsConfirmed :
      (s : Send) → Holds IsConfirmed (in_db (on_confirmed s)) (λ a. IsConfirmed) IsConfirmed
  unfolding in_db
  callback-IsConfirmed s = record {
    runs = λ w h. after_callback w (on_confirmed s w.db) (λ db' e. keeps s w.db db' e) h;
  }

  emit-IsConfirmed :
      (event : Event) → Holds IsConfirmed (emit o event) (λ a. IsConfirmed) IsConfirmed
  unfolding emit append_event
  emit-IsConfirmed event = record {
    runs = λ w h. elim (Bool-cases (any (λ (e : Event). e.id == event.id) w.db.events)) [
      | inl seen ↦ rw seen h
      | inr fresh ↦ rw fresh h
    ];
  }

  still_there :
      (new s : Send) (sends : List Send)
      → send_by_id id sends ≡ some s
      → new.id ≡ id
      → new.status ≡ confirmed
      → is_status confirmed (send_by_id id (map (replaced id new) sends)) ≡ true
  still_there new s sends found at e =
      ground
        (arith, send_by_id-replaced id id new sends at, send_by_id-id id sends s found, ==-refl id)

  after_update :
      (patch : Patch) (w : World) (r : Option Send)
      → patch.status ≡ confirmed
      → send_by_id id w.db.sends ≡ r
      → is_some r ≡ true
      → After
          (λ (a : Send). IsConfirmed)
          IsConfirmed
          (in_db
            (λ db. elim r [
              | none ↦ err (plain "Send not found")
              | some existing ↦ ok (
                record db { sends = map (replaced id (patched patch existing)) db.sends },
                patched patch existing,
              )
            ])
            w)
  unfolding in_db
  after_update patch w none e found h = absurd (ground arith)
  after_update patch w (some s) e found h =
      still_there (patched patch s) s w.db.sends found (send_by_id-id id w.db.sends s found) e

  update-IsConfirmed :
      (patch : Patch)
      → patch.status ≡ confirmed
      → Holds IsThere (in_db (update id patch)) (λ a. IsConfirmed) IsConfirmed
  unfolding in_db update
  update-IsConfirmed patch e = record {
    runs = λ w h. after_update patch w (send_by_id id w.db.sends) e refl h;
  }

  mark-IsConfirmed : Holds IsThere (mark_confirmed o on_confirmed id) (λ a. IsConfirmed) IsConfirmed
  unfolding mark_confirmed
  mark-IsConfirmed = >>=-Holds (read_any-Holds _) (λ here.
      >>=-Holds (update-IsConfirmed _ refl)
        (λ send. >>=-Holds (emit-IsConfirmed _) (λ done. callback-IsConfirmed send)))

  confirmed-IsConfirmed :
      (send : Send)
      → (send.status == confirmed) ≡ true
      → Holds
          (λ w. IsThere w × (send_by_id id w.db.sends ≡ some send))
          (in_db (on_confirmed send))
          (λ a. IsConfirmed)
          IsConfirmed
  confirmed-IsConfirmed send e =
      Holds-weaken (callback-IsConfirmed send) (λ w h. ground (arith, h.1)) (λ a w h. h) (λ w h. h)

  settle-IsConfirmed :
      Holds IsThere (settle_confirmed o on_confirmed id) (λ a. IsConfirmed) IsConfirmed
  unfolding settle_confirmed
  settle-IsConfirmed = >>=-Holds (read-Holds (λ (w : World). send_by_id id w.db.sends)) (λ current.
      option-Holds (λ x w. IsThere w × (send_by_id id w.db.sends ≡ x)) current
        (Holds-weaken mark-IsConfirmed (λ w h. h.0) (λ a w h. h) (λ w h. h))
        (λ send.
          if-Holds (send.status == confirmed) (λ e. confirmed-IsConfirmed send e)
            (λ e. Holds-weaken mark-IsConfirmed (λ w h. h.0) (λ a w h. h) (λ w h. h))))

  there_once_confirmed :
      (found : Option Send) → is_status confirmed found ≡ true → is_some found ≡ true
  there_once_confirmed none h = absurd (ground arith)
  there_once_confirmed (some s) h = refl

  pub settled :
      Holds IsThere
        (do done ← settle_confirmed o on_confirmed id; pure true)
        (λ a. IsConfirmed)
        IsConfirmed
  settled = >>=-Holds settle-IsConfirmed (λ done. pure-Holds true (λ w h. h))

  poll-IsConfirmed :
      {bad : Pred} (hash : String)
      → Holds IsConfirmed (poll o on_confirmed id hash) (λ a. IsConfirmed) bad
  unfolding poll
  poll-IsConfirmed hash =
      catch-Holds
        (>>=-Holds (ask_any-Holds _ (record { keeps = λ w h. h })) (λ info.
          option-Holds (λ x. IsConfirmed) info (pure-Holds false (λ w h. h))
            (λ is_confirmed.
              if-Holds is_confirmed
                (λ e.
                  Holds-weaken settled (λ w h. there_once_confirmed (send_by_id id w.db.sends) h)
                    (λ a w h. h) (λ w h. h))
                (λ e. pure-Holds false (λ w h. h)))))
        (λ f. pure-Holds false (λ w h. h))

  pub loop-IsConfirmed :
      (hash : String) (deadline fuel : ℕ)
      → Holds IsConfirmed
          (confirm_until o on_confirmed deadline id hash fuel)
          (λ a. IsConfirmed)
          IsConfirmed
  unfolding confirm_until sleep
  loop-IsConfirmed hash deadline zero = pure-Holds none (λ w h. h)
  loop-IsConfirmed hash deadline (suc fuel) = >>=-Holds (read_any-Holds (clock o)) (λ now.
      if-Holds (ltb now deadline)
        (λ e. >>=-Holds (poll-IsConfirmed hash) (λ done.
          if-Holds done (λ d. pure-Holds (some tt) (λ w h. h))
            (λ d.
              >>=-Holds (record { runs = λ w h. h })
                (λ slept. loop-IsConfirmed hash deadline fuel))))
        (λ e. pure-Holds (some tt) (λ w h. h)))
