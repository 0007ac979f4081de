-- ===== src/Orchestrators/Receiving.antt =====
-- What preparing and publishing a receive block keeps of the ledger of intents and broadcasts: the
-- body of `processTaskUnderLease` in receive-orchestrator.ts.
use rai_flow.Prelude.{refl, suc, String, not, ◌≡◌, none, some, ◌==◌, string_eq, leb, arith, ◌∙◌}
use rai_flow.Model.{ReceiveTask}
use rai_flow.Intents.Store.{Intent, get}
use rai_flow.Orchestrators.World.{
  Failure, error_message, includes, World, Marks, ◌>>=◌, pure, catch, mark, Outside,
}
use rai_flow.Orchestrators.Sends.{is_lease_lost, work_rejection}
use rai_flow.Orchestrators.Receives.{
  prepare_receive, publish_receive, note_rejection, work_again, rework_receive, record_received,
  receive_task, max_attempts, retry_later,
}
use rai_flow.Orchestrators.Hoare.{
  Pred, Holds, >>=-Holds, catch-Holds, pure-Holds, throw-Holds, read-Holds, read_any-Holds,
  option-Holds, after_ask-Holds, after_lift-Holds, Holds-weaken, if-Holds, IsStable, ask_any-Holds,
  assert_current-Holds, IsApart, in_db-Holds, emit-Holds,
}
use rai_flow.Orchestrators.Ledger.{
  IsHonest, Sound, SoundFor, SoundFor-IsApart, IsStored, get-IsStored,
}
use rai_flow.Orchestrators.Publishing.{
  stable, Ready, create_intent-Ready, kept, Kept, process_block-Kept, old_block-Kept,
  update_work-Kept,
}

pub mark-Holds :
    {p : Pred} (change : Marks → Marks)
    → ((w : World) (m : Marks) → p w → p (record w { marks = m }))
    → Holds p (mark change) (λ a. p) p
unfolding mark
mark-Holds change quiet = record { runs = λ w h. quiet w (change w.marks) h }

pub retry_later-Holds :
    {p : Pred} (o : Outside) (task : ReceiveTask) (failure : Failure)
    → IsApart p
    → Holds p (retry_later o task failure) (λ a. p) p
unfolding retry_later
retry_later-Holds o task failure apart = >>=-Holds (read_any-Holds _) (λ here.
    if-Holds (leb max_attempts (suc task.retry_count))
      (λ e.
        >>=-Holds (in_db-Holds _ apart)
          (λ failed. catch-Holds (emit-Holds o _ apart) (λ f. pure-Holds tt (λ w h. h))))
      (λ e. >>=-Holds (in_db-Holds _ apart) (λ updated. pure-Holds tt (λ w h. h))))

pub record_received-Holds :
    {p : Pred} (o : Outside) (task : ReceiveTask) (hash : String)
    → IsStable o p
    → IsApart p
    → Holds p (record_received o task hash) (λ a. p) p
unfolding record_received
record_received-Holds o task hash steady apart =
    >>=-Holds (assert_current-Holds task.account_address steady) (λ a.
      >>=-Holds (read_any-Holds _)
        (λ here. >>=-Holds (in_db-Holds _ apart) (λ updated. emit-Holds o _ apart)))

module _ (o : Outside) (hash_of : String → String) (honest : IsHonest o hash_of) where
  pub steady : IsStable o (Sound hash_of)
  steady = stable o hash_of honest

  prepare_receive-Ready :
      (task : ReceiveTask)
      → Holds
          (Sound hash_of)
          (prepare_receive o task)
          (λ i. Ready o hash_of honest task.id i)
          (Sound hash_of)
  unfolding prepare_receive
  prepare_receive-Ready task = >>=-Holds (ask_any-Holds _ steady) (λ info.
      after_ask-Holds _ steady (λ k signed by_engine. after_lift-Holds _ (λ block parsed.
        after_lift-Holds _ (λ subject at. >>=-Holds (ask_any-Holds _ steady) (λ work.
          >>=-Holds (assert_current-Holds task.account_address steady) (λ current.
            >>=-Holds (read_any-Holds _) (λ now. create_intent-Ready o hash_of honest _ _ (
              honest.works signed.contents block work parsed
              ∙ honest.signs k _ signed by_engine))))))))

  module _ (id : String) (i : Intent) (at : IsStored hash_of id i) where
    abbrev Now : Pred
    Now = Kept o hash_of honest id i at

    now : IsStable o Now
    now = kept o hash_of honest id i at

    publish_receive-Now :
        (task : ReceiveTask) (json : String)
        → task.id ≡ id
        → hash_of json ≡ i.block_hash
        → Holds Now (publish_receive o task i json) (λ h. Now) Now
    unfolding publish_receive
    publish_receive-Now task json same good =
        >>=-Holds (assert_current-Holds task.account_address now) (λ a.
          >>=-Holds (mark-Holds _ (λ w m h. h)) (λ started.
            catch-Holds
              (>>=-Holds (process_block-Kept o hash_of honest id i at task.id json same good) (λ h.
                if-Holds (h == i.block_hash) (λ e. pure-Holds h (λ w k. k))
                  (λ e. throw-Holds _ (λ w k. k))))
              (λ f.
                Holds-weaken (old_block-Kept o hash_of honest id i at f) (λ w k. k) (λ h w k. k.0)
                  (λ w k. k))))

    note_rejection-Now : (f : Failure) → Holds Now (note_rejection f) (λ h. Now) Now
    unfolding note_rejection
    note_rejection-Now f =
        if-Holds (includes (error_message f) work_rejection)
          (λ e. >>=-Holds (mark-Holds _ (λ w m h. h)) (λ marked. throw-Holds f (λ w k. k)))
          (λ e. throw-Holds f (λ w k. k))

    rework_receive-Now :
        (task : ReceiveTask) (f : Failure)
        → task.id ≡ id
        → Holds Now (rework_receive o task i f) (λ h. Now) Now
    unfolding rework_receive work_again
    rework_receive-Now task f same =
        if-Holds (is_lease_lost f) (λ e. throw-Holds f (λ w k. k))
          (λ e.
            if-Holds (not (includes (error_message f) work_rejection))
              (λ e'. throw-Holds f (λ w k. k))
              (λ e'. after_lift-Holds _ (λ block parsed. after_lift-Holds _ (λ subject of_block.
                >>=-Holds (ask_any-Holds _ now) (λ work.
                  let good = honest.works i.block_json block work parsed ∙ at.good in
                  >>=-Holds (assert_current-Holds task.account_address now) (λ current.
                    >>=-Holds
                      (update_work-Kept o hash_of honest id i at task.id (o.with_work block work)
                        good)
                      (λ changed.
                        if-Holds changed
                          (λ e''.
                            >>=-Holds
                              (catch-Holds
                                (publish_receive-Now task (o.with_work block work) same good)
                                note_rejection-Now)
                              (λ h. pure-Holds (some h) (λ w k. k)))
                          (λ e''. pure-Holds none (λ w k. k)))))))))

  deliver-Sound :
      (task : ReceiveTask) (i : Intent)
      → IsStored hash_of task.id i
      → Holds
          (SoundFor hash_of task.id i.block_hash)
          (do
            accepted ←
                catch
                  (do hash ← publish_receive o task i i.block_json; pure (some hash))
                  (rework_receive o task i)
            elim accepted [ none ↦ pure tt | some hash ↦ record_received o task hash ])
          (λ a. Sound hash_of)
          (Sound hash_of)
  deliver-Sound task i at =
      Holds-weaken
        (>>=-Holds
          (catch-Holds
            (>>=-Holds (publish_receive-Now task.id i at task i.block_json refl at.good)
              (λ h. pure-Holds (some h) (λ w k. k)))
            (λ f. rework_receive-Now task.id i at task f refl))
          (λ accepted.
            option-Holds (λ x. Now task.id i at) accepted (pure-Holds tt (λ w k. k))
              (λ hash.
                record_received-Holds o task hash (now task.id i at)
                  (SoundFor-IsApart task.id i.block_hash))))
        (λ w k. k) (λ a w k. k.0) (λ w k. k.0)

  pub receive_task-Sound :
      (task : ReceiveTask)
      → Holds (Sound hash_of) (receive_task o task) (λ a. Sound hash_of) (Sound hash_of)
  unfolding receive_task
  receive_task-Sound task = >>=-Holds (read-Holds (λ (w : World). get task.id w.intents)) (λ stored.
      >>=-Holds
        (option-Holds (λ x w. Sound hash_of w × (get task.id w.intents ≡ x)) stored
          (Holds-weaken (prepare_receive-Ready task) (λ w h. h.0) (λ i w h. h) (λ w h. h))
          (λ i.
            pure-Holds i (λ w (s, e).
              ((s, ground arith), get-IsStored hash_of task.id i w.intents s.stored e))))
        (λ i. record { runs = λ w (s, at). (deliver-Sound task i at).runs w s }))
