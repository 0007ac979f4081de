-- ===== src/Orchestrators/Outcomes.antt =====
-- What publishing does to the table of sends, on every path through `publishSendUnderLease`.
use rai_flow.Prelude.{
  String, ◌≡◌, refl, Option, none, some, List, ◌==◌, string_eq, any, map, inl, inr, ◌⊎◌, Bool-cases,
  ap, ◌∙◌, sym,
}
use rai_flow.Model.{Event, Send, SendStatus}
use rai_flow.Model.Errors.{ok, err, plain}
use rai_flow.Storage.Db.{append_event}
use rai_flow.Storage.Refunds.Queue.{send_by_id}
use rai_flow.Storage.Refunds.Sends.{Patch, patched, replaced, update}
use rai_flow.Intents.Store.{Intent}
use rai_flow.Orchestrators.World.{
  error_message, includes, World, Outside, process_block, in_db, emit,
}
use rai_flow.Orchestrators.Sends.{
  Source, fail_send, prepare, prepare_failed, intent_for, old_block, publish, publish_reworked,
  is_lease_lost, work_rejection, rework_failed, publish_failed, accepted_hash,
}
use rai_flow.Orchestrators.Hoare.{
  Pred, After, Holds, >>=-Holds, catch-Holds, pure-Holds, throw-Holds, read_any-Holds, option-Holds,
  after_lift-Holds, Holds-weaken, if-Holds, IsStable, ask_any-Holds, assert_current-Holds,
}
use rai_flow.Orchestrators.Attempts.{create_intent-Holds, update_work-Holds}

module _ (o : Outside) (send : Send) (rows : List Send) where
  abbrev pub Same : Pred
  Same w = w.db.sends ≡ rows

  -- The row stored for the send is patched, and no other.
  abbrev pub Updated : Patch → Pred
  Updated patch w =
      (old : Send) × (send_by_id send.id rows ≡ some old)
      × (w.db.sends ≡ map (replaced send.id (patched patch old)) rows)

  pub steady : IsStable o Same
  steady = record { keeps = λ w h. h }

  after_update :
      (patch : Patch) (w : World) (known : Option Send)
      → send_by_id send.id w.db.sends ≡ known
      → Same w
      → After
          (λ (s : Send). Updated patch)
          Same
          (in_db
            (λ db. elim known [
              | none ↦ err (plain "Send not found")
              | some existing ↦ ok (
                record db { sends = map (replaced send.id (patched patch existing)) db.sends },
                patched patch existing,
              )
            ])
            w)
  unfolding in_db
  after_update patch w none e h = h
  after_update patch w (some old) e h =
      (old, ap (send_by_id send.id) (sym h) ∙ e, ap (map (replaced send.id (patched patch old))) h)

  pub update-Updated :
      (patch : Patch) → Holds Same (in_db (update send.id patch)) (λ (s : Send). Updated patch) Same
  unfolding update in_db
  update-Updated patch = record {
    runs = λ w h. after_update patch w (send_by_id send.id w.db.sends) refl h;
  }

  pub emit-Updated :
      {bad : Pred} (patch : Patch) (event : Event)
      → Holds (Updated patch) (emit o event) (λ a. Updated patch) bad
  unfolding emit append_event
  emit-Updated patch event = record {
    runs = λ w h. elim (Bool-cases (any (λ (e : Event). e.id == event.id) w.db.events)) [
      | inl seen ↦ rw seen h
      | inr fresh ↦ rw fresh h
    ];
  }

  abbrev pub to_failed : Patch
  to_failed = record {
    status = SendStatus.failed;
    block_hash = none;
    published_at = none;
    confirmed_at = none;
  }

  -- The table is as it was, or the send has failed.
  abbrev pub Stopped : Pred
  Stopped w = Same w ⊎ Updated to_failed w

  fail_send-Stopped :
      (address reason : String)
      → Holds Same (fail_send o send address reason) (λ a. Stopped) Stopped
  unfolding fail_send
  fail_send-Stopped address reason =
      >>=-Holds
        (Holds-weaken (assert_current-Holds address steady) (λ w h. h) (λ a w h. h) (λ w h. inl h))
        (λ current. >>=-Holds (read_any-Holds _) (λ here.
          >>=-Holds (Holds-weaken (update-Updated to_failed) (λ w h. h) (λ a w h. h) (λ w h. inl h))
            (λ s.
              Holds-weaken (emit-Updated {bad = Stopped} to_failed _) (λ w h. h) (λ a w h. inr h)
                (λ w h. h))))

  prepare-Same : (source : Source) → Holds Same (prepare o send source) (λ i. Same) Same
  unfolding prepare
  prepare-Same source = >>=-Holds (ask_any-Holds _ steady) (λ info.
      after_lift-Holds _ (λ funds affordable. >>=-Holds (ask_any-Holds _ steady) (λ signed.
        after_lift-Holds _ (λ block parsed. >>=-Holds (ask_any-Holds _ steady) (λ work.
          >>=-Holds (assert_current-Holds source.address steady) (λ current.
            >>=-Holds (read_any-Holds _) (λ now. create_intent-Holds _ _ (λ w i k h. h))))))))

  -- With an intent the table is as it was.
  abbrev pub Found : Option Intent → Pred
  Found none w = Stopped w
  Found (some i) w = Same w

  pub intent_for-Found : (source : Source) → Holds Same (intent_for o send source) Found Stopped
  unfolding intent_for prepare_failed
  intent_for-Found source = >>=-Holds (read_any-Holds _) (λ stored.
      option-Holds (λ x. Same) stored
        (catch-Holds (>>=-Holds (prepare-Same source) (λ i. pure-Holds (some i) (λ w h. h))) (λ f.
          if-Holds (error_message f == "Insufficient balance")
            (λ e.
              >>=-Holds (fail_send-Stopped source.address _) (λ done. pure-Holds none (λ w h. h)))
            (λ e. pure-Holds none (λ w h. inl h))))
        (λ i. pure-Holds (some i) (λ w h. h)))

  process_block-Same : (id json : String) → Holds Same (process_block o id json) (λ a. Same) Same
  unfolding process_block
  process_block-Same id json = record { runs = λ w h. (ask_any-Holds _ steady).runs _ h }

  publish-Same :
      (address json : String) (i : Intent)
      → Holds Same (publish o send address i json) (λ h. Same) Same
  unfolding publish old_block
  publish-Same address json i = >>=-Holds (assert_current-Holds address steady) (λ a.
      catch-Holds
        (>>=-Holds (process_block-Same send.id json) (λ h.
          if-Holds (h == i.block_hash) (λ e. pure-Holds h (λ w k. k))
            (λ e. throw-Holds _ (λ w k. k))))
        (λ f.
          if-Holds (includes (error_message f) "Old block")
            (λ e. >>=-Holds (ask_any-Holds _ steady) (λ existing.
              option-Holds (λ x. Same) existing (throw-Holds f (λ w k. k))
                (λ b. pure-Holds i.block_hash (λ w k. k))))
            (λ e. throw-Holds f (λ w k. k))))

  publish_reworked-Same :
      (address : String) (i : Intent)
      → Holds Same (publish_reworked o send address i) (λ h. Same) Same
  unfolding publish_reworked
  publish_reworked-Same address i = after_lift-Holds _ (λ block parsed.
      >>=-Holds (ask_any-Holds _ steady) (λ work.
        >>=-Holds (assert_current-Holds address steady) (λ current.
          >>=-Holds (update_work-Holds _ _ _ (λ w j k h. h)) (λ changed.
            if-Holds changed
              (λ e.
                >>=-Holds (publish-Same address (o.with_work block work) i)
                  (λ h. pure-Holds (some h) (λ w k. k)))
              (λ e. pure-Holds none (λ w k. k))))))

  -- With an accepted hash the table is as it was.
  abbrev pub Tried : Option String → Pred
  Tried none w = Stopped w
  Tried (some h) w = Same w

  Same-Tried : (h : Option String) (w : World) → Same w → Tried h w
  Same-Tried none w k = inl k
  Same-Tried (some h) w k = k

  pub accepted_hash-Tried :
      (address : String) (i : Intent) → Holds Same (accepted_hash o send address i) Tried Stopped
  unfolding accepted_hash publish_failed rework_failed
  accepted_hash-Tried address i =
      catch-Holds
        (>>=-Holds (publish-Same address i.block_json i) (λ h. pure-Holds (some h) (λ w k. k)))
        (λ f.
          if-Holds (is_lease_lost f) (λ e. throw-Holds f (λ w k. inl k))
            (λ e.
              if-Holds (includes (error_message f) work_rejection)
                (λ e'.
                  catch-Holds
                    (Holds-weaken (publish_reworked-Same address i) (λ w k. k) Same-Tried
                      (λ w k. k))
                    (λ g.
                      if-Holds (is_lease_lost g) (λ e''. throw-Holds g (λ w k. inl k))
                        (λ e''.
                          if-Holds (includes (error_message g) work_rejection)
                            (λ e'''.
                              >>=-Holds (fail_send-Stopped address _)
                                (λ done. pure-Holds none (λ w k. k)))
                            (λ e'''. pure-Holds none (λ w k. inl k)))))
                (λ e'. pure-Holds none (λ w k. inl k))))
