-- ===== src/Orchestrators/OneReceive.antt =====
-- The broadcasts of a receive orchestrator beside its stored intents.
use rai_flow.Prelude.{ℕ, String, not, ◌&&◌, ◌≡◌, List, [], ◌∷◌, string_eq, ltb, find, holds}
use mathlib.Core.List.{Memᴰ}
use rai_flow.Model.{ReceiveTask}
use rai_flow.Orchestrators.World.{World, Answer, Outside, Broadcast}
use rai_flow.Orchestrators.Sends.{is_lease_lost}
use rai_flow.Orchestrators.Receives.{
  Receivable, enqueue_all, enqueue_receivables, receive_failed, process_task_under_lease, attempt,
  attempt_first, process_next, handle_confirmed_receive_block, processes, enqueues, confirms,
  elsewhere, ReceiveReach, begins, later,
}
use rai_flow.Orchestrators.Hoare.{
  Holds, >>=-Holds, catch-Holds, pure-Holds, throw-Holds, read_any-Holds, option-Holds, if-Holds,
  IsStable, ask_any-Holds, assert_current-Holds, in_db-Holds, emit-Holds, run_under_lease-Holds,
  same_after,
}
use rai_flow.Orchestrators.Ledger.{IsHonest, Sound, Sound-IsApart}
use rai_flow.Orchestrators.Publishing.{stable}
use rai_flow.Orchestrators.OneBlock.{same_hash}
use rai_flow.Orchestrators.Receiving.{mark-Holds, retry_later-Holds, receive_task-Sound}

module _ (o : Outside) (hash_of : String → String) (honest : IsHonest o hash_of) where
  steady : IsStable o (Sound hash_of)
  steady = stable o hash_of honest

  process_task-Sound :
      (task : ReceiveTask)
      → Holds (Sound hash_of) (process_task_under_lease o task) (λ a. Sound hash_of) (Sound hash_of)
  unfolding process_task_under_lease receive_failed
  process_task-Sound task = >>=-Holds (mark-Holds _ (λ w m h. h)) (λ begun.
      catch-Holds (receive_task-Sound o hash_of honest task) (λ f.
        if-Holds (is_lease_lost f) (λ e. throw-Holds f (λ w s. s))
          (λ e. >>=-Holds (assert_current-Holds task.account_address steady) (λ current.
            >>=-Holds (read_any-Holds _) (λ marks.
              if-Holds (marks.broadcast_started && not marks.repeated_work_rejection)
                (λ e'. pure-Holds tt (λ w s. s))
                (λ e'. retry_later-Holds o task f Sound-IsApart))))))

  attempt-Sound :
      (task : ReceiveTask)
      → Holds (Sound hash_of) (attempt o task) (λ a. Sound hash_of) (Sound hash_of)
  unfolding attempt
  attempt-Sound task = >>=-Holds (mark-Holds _ (λ w m h. h)) (λ begun.
      >>=-Holds
        (catch-Holds
          (>>=-Holds
            (run_under_lease-Holds task.account_address steady (
              >>=-Holds (mark-Holds _ (λ w m h. h)) (λ got.
                >>=-Holds (in_db-Holds _ Sound-IsApart) (λ updated. process_task-Sound task))))
            (λ result. pure-Holds tt (λ w s. s)))
          (λ f.
            if-Holds (is_lease_lost f) (λ e. pure-Holds tt (λ w s. s))
              (λ e. throw-Holds f (λ w s. s))))
        (λ done. read_any-Holds _))

  attempt_first-Sound :
      (minimum : ℕ) (tasks : List ReceiveTask)
      → Holds (Sound hash_of) (attempt_first o minimum tasks) (λ a. Sound hash_of) (Sound hash_of)
  unfolding attempt_first
  attempt_first-Sound minimum [] = pure-Holds tt (λ w s. s)
  attempt_first-Sound minimum (t ∷ ts) = >>=-Holds (read_any-Holds _) (λ stored.
      if-Holds (ltb t.amount_raw minimum && not stored) (λ e. attempt_first-Sound minimum ts)
        (λ e. >>=-Holds (attempt-Sound t) (λ acquired.
          if-Holds acquired (λ e'. pure-Holds tt (λ w s. s))
            (λ e'. attempt_first-Sound minimum ts))))

  process_next-Sound :
      (minimum : ℕ)
      → Holds (Sound hash_of) (process_next o minimum) (λ a. Sound hash_of) (Sound hash_of)
  unfolding process_next
  process_next-Sound minimum =
      >>=-Holds (read_any-Holds _)
        (λ pending. >>=-Holds (read_any-Holds _) (λ processing. attempt_first-Sound minimum _))

  enqueue_all-Sound :
      (minimum : ℕ) (address : String) (index : ℕ) (entries : List Receivable)
      → Holds
          (Sound hash_of)
          (enqueue_all o minimum address index entries)
          (λ a. Sound hash_of)
          (Sound hash_of)
  unfolding enqueue_all
  enqueue_all-Sound minimum address index [] = pure-Holds tt (λ w s. s)
  enqueue_all-Sound minimum address index (e ∷ es) =
      >>=-Holds
        (if-Holds (ltb e.amount minimum) (λ below. pure-Holds tt (λ w s. s))
          (λ enough.
            catch-Holds
              (>>=-Holds (ask_any-Holds _ steady) (λ drawn. >>=-Holds (read_any-Holds _) (λ here.
                >>=-Holds (in_db-Holds _ Sound-IsApart) (λ task. pure-Holds tt (λ w s. s)))))
              (λ f. pure-Holds tt (λ w s. s))))
        (λ done. enqueue_all-Sound minimum address index es)

  enqueue_receivables-Sound :
      (minimum : ℕ) (receivable : Answer (List Receivable)) (address : String) (index : ℕ)
      → Holds
          (Sound hash_of)
          (enqueue_receivables o minimum receivable address index)
          (λ a. Sound hash_of)
          (Sound hash_of)
  unfolding enqueue_receivables
  enqueue_receivables-Sound minimum receivable address index =
      catch-Holds
        (>>=-Holds (ask_any-Holds _ steady)
          (λ entries. enqueue_all-Sound minimum address index entries))
        (λ f. pure-Holds tt (λ w s. s))

  handle_confirmed-Sound :
      (hash : String)
      → Holds
          (Sound hash_of)
          (handle_confirmed_receive_block o hash)
          (λ a. Sound hash_of)
          (Sound hash_of)
  unfolding handle_confirmed_receive_block
  handle_confirmed-Sound hash = >>=-Holds (read_any-Holds _) (λ published.
      option-Holds (λ x. Sound hash_of)
        (find (λ (t : ReceiveTask). holds t.receive_block_hash hash) published)
        (pure-Holds tt (λ w s. s))
        (λ task. >>=-Holds (read_any-Holds _) (λ here.
          >>=-Holds (in_db-Holds _ Sound-IsApart) (λ updated. emit-Holds o _ Sound-IsApart))))

  ReceiveReach-Sound : {w : World} → ReceiveReach o w → Sound hash_of w
  ReceiveReach-Sound (begins db) = record { stored = tt; known = tt }
  ReceiveReach-Sound (later {w} r (processes minimum)) =
      same_after (process_next-Sound minimum) w (ReceiveReach-Sound r)
  ReceiveReach-Sound (later {w} r (enqueues minimum receivable address index)) =
      same_after (enqueue_receivables-Sound minimum receivable address index) w
        (ReceiveReach-Sound r)
  ReceiveReach-Sound (later {w} r (confirms hash)) =
      same_after (handle_confirmed-Sound hash) w (ReceiveReach-Sound r)
  ReceiveReach-Sound (later r (elsewhere db)) = ReceiveReach-Sound r

-- In every run of a receive orchestrator, beside others that create and rework intents of their own
-- and whatever the node, the lease and the clock answer, two blocks handed to the node for one
-- receive task have the same hash, provided that the engine answers, if at all, with the hash of
-- the block that it signs, that the hash of a block does not look at its work, and that the others
-- store blocks under their hash.
pub one_receive_block :
    (o : Outside) (hash_of : String → String) (w : World) (a b : Broadcast)
    → IsHonest o hash_of
    → ReceiveReach o w
    → Memᴰ a w.broadcasts
    → Memᴰ b w.broadcasts
    → a.owner_id ≡ b.owner_id
    → hash_of a.block_json ≡ hash_of b.block_json
one_receive_block o hash_of w a b honest reach in_a in_b same =
    same_hash hash_of w a b (ReceiveReach-Sound o hash_of honest reach) in_a in_b same
