-- ===== src/Orchestrators/Refusals.antt =====
-- Why an attempt at a receive task counts: what `processTaskUnderLease` notes of the node's answers.
use rai_flow.Prelude.{
  ℕ, suc, ◌≤◌, ◌<◌, String, Bool, true, false, not, ◌≡◌, refl, Option, none, some, ◌==◌, string_eq,
  if◌then◌else◌, arith, ◌&&◌, List, leb, inl, inr, ◌⊎◌, ap, ◌∙◌, sym,
}
use rai_flow.Model.{ReceiveTask, published, pending, failed}
use rai_flow.Storage.Db.{Db}
use rai_flow.Intents.Store as Intents
use rai_flow.Intents.Store.{Intent}
use rai_flow.Orchestrators.World.{
  Failure, Run, lease_lost, throws, gives, error_message, includes, World, pure, throw, mark,
  Outside, checked, assert_current, ask, update_work, process_block, create_intent,
}
use rai_flow.Orchestrators.Sends.{is_lease_lost, work_rejection, old_block}
use rai_flow.Orchestrators.Tasks.{get}
use rai_flow.Orchestrators.Receives.{
  prepare_receive, publish_receive, note_rejection, work_again, rework_receive, receive_task,
  receive_failed, process_task_under_lease,
}
use rai_flow.Orchestrators.Hoare.{
  Pred, Holds, >>=-Holds, catch-Holds, pure-Holds, throw-Holds, read_any-Holds, option-Holds,
  after_lift-Holds, Holds-weaken, if-Holds, IsStable, IsApart, ask_any-Holds, assert_current-Holds,
  after_state,
}
use rai_flow.Orchestrators.Failing.{
  Fails, >>=-Fails, catch-Fails, pure-Fails, throw-Fails, if-Fails, Fails-weaken, Holds-Fails,
  Fails-Holds, ask-Fails,
}
use rai_flow.Orchestrators.Receiving.{retry_later-Holds, record_received-Holds}
use rai_flow.Orchestrators.Attempts.{after_insert, HasRow, process_task_under_lease-Noted}

-- An answer of the node at the number of a call, to a block or to the question about one, is an error
-- about the work.
abbrev pub RefusedAt : Outside → ℕ → Type 0
RefusedAt o k =
    (f : Failure) × (includes (error_message f) work_rejection ≡ true)
    × (((json : String) × (o.process k json ≡ throws f))
        ⊎ ((hash : String) × (o.block_info k hash ≡ throws f)))

-- Two calls since a number of calls were answered so.
abbrev pub RefusedTwice : Outside → ℕ → Pred
RefusedTwice o since w =
    (k : ℕ) × (l : ℕ) × (since ≤ k) × (k < l) × (l < w.calls) × RefusedAt o k × RefusedAt o l

module _ (o : Outside) (task : ReceiveTask)
    (plain : includes (error_message (lease_lost task.account_address)) work_rejection ≡ false)
    (since : ℕ) where
  -- A repeated rejection that is noted has happened.
  abbrev Justified : Pred
  Justified w = w.marks.repeated_work_rejection ≡ true → RefusedTwice o since w

  abbrev Base : ℕ → Pred
  Base from w = (from ≤ w.calls) × Justified w

  Base-IsStable : (from : ℕ) → IsStable o (Base from)
  Base-IsStable from = record {
    keeps = λ w h. (
      omega (arith, h.0),
      λ e.
          let (k, l, low, less, high, first, second) = h.1 e in
          (k, l, low, less, omega (arith, high), first, second),
    );
  }

  Base-IsApart : (from : ℕ) → IsApart (Base from)
  Base-IsApart from w db h = h

  -- A failure about the work is an answer of the node.
  abbrev Caused : ℕ → Failure → Pred
  Caused from f w =
      includes (error_message f) work_rejection ≡ true
      → (k : ℕ) × (from ≤ k) × (k < w.calls) × RefusedAt o k

  abbrev Known : ℕ → Failure → Pred
  Known from f w = Base from w × Caused from f w

  Known-IsStable : (from : ℕ) (f : Failure) → IsStable o (Known from f)
  Known-IsStable from f = record {
    keeps = λ w h. (
      (Base-IsStable from).keeps w h.0,
      λ e. let (k, low, high, at) = h.1 e in (k, low, omega (arith, high), at),
    );
  }

  -- Losing the lease is no failure about the work.
  checked-plain :
      (k : ℕ) (f : Failure)
      → checked o task.account_address k ≡ throws f
      → includes (error_message f) work_rejection ≡ false
  checked-plain k f e = lost (o.is_current k) e
    where
      lost :
          (b : Bool)
          → elim b [ true ↦ gives tt | false ↦ throws (lease_lost task.account_address) ] ≡ throws f
          → includes (error_message f) work_rejection ≡ false
      lost true e' = cc
      lost false e' =
          let same : lease_lost task.account_address ≡ f = ground (arith, e') in
          ap (λ g. includes (error_message g) work_rejection) (sym same) ∙ plain

  assert-Known :
      (from : ℕ)
      → Fails (Base from) (assert_current o task.account_address) (λ a. Base from) (Known from)
  assert-Known from =
      Fails-weaken (ask-Fails (checked o task.account_address) (Base-IsStable from)) (λ w h. h)
        (λ a w h. h)
        (λ f w (h, (v, same, before, e)).
          (h, λ refused. absurd (ground (arith, checked-plain v.calls f e, refused))))

  process-Known :
      (from : ℕ) (json : String)
      → Fails (Base from) (process_block o task.id json) (λ a. Base from) (Known from)
  unfolding process_block
  process-Known from json = record { runs = λ w h. answered.runs _ h }
    where
      answered :
          Fails (Base from) (ask o (λ k. o.process k json)) (λ (a : String). Base from) (Known from)
      answered =
          Fails-weaken (ask-Fails (λ k. o.process k json) (Base-IsStable from)) (λ w h. h)
            (λ a w h. h)
            (λ f w (h, (v, same, before, e)).
              (h, λ refused. (v.calls, before.0, omega (arith, same), (f, refused, inl (json, e)))))

  old_block-Known :
      (from : ℕ) (i : Intent) (f : Failure)
      → Fails (Known from f) (old_block o i f) (λ a. Base from) (Known from)
  unfolding old_block
  old_block-Known from i f =
      if-Fails (includes (error_message f) "Old block")
        (λ e.
          >>=-Fails
            (Fails-weaken (ask-Fails (λ k. o.block_info k i.block_hash) (Known-IsStable from f))
              (λ w h. h) (λ a w h. h)
              (λ g w (h, (v, same, before, at)). (
                h.0,
                λ refused. (
                  v.calls,
                  before.0.0,
                  omega (arith, same),
                  (g, refused, inr (i.block_hash, at)),
                ),
              )))
            answered)
        (λ e. throw-Fails f (λ w h. h))
    where
      answered :
          (existing : Option Bool)
          → Fails
              (Known from f)
              (elim existing as (λ x. Run String) [
                | none ↦ throw f
                | some info ↦ pure i.block_hash
              ])
              (λ a. Base from)
              (Known from)
      answered none = throw-Fails f (λ w h. h)
      answered (some info) = pure-Fails i.block_hash (λ w h. h.0)

  mismatch-plain :
      includes "Published receive hash did not match the saved intent" work_rejection ≡ false
  unfolding includes
  mismatch-plain = refl

  publish_receive-Known :
      (from : ℕ) (i : Intent) (json : String)
      → Fails (Base from) (publish_receive o task i json) (λ h. Base from) (Known from)
  unfolding publish_receive mark
  publish_receive-Known from i json = >>=-Fails (assert-Known from) (λ current.
      >>=-Fails (record { runs = λ w h. h })
        (λ started.
          catch-Fails
            (>>=-Fails (process-Known from json) (λ h.
              if-Fails (h == i.block_hash) (λ e. pure-Fails h (λ w k. k))
                (λ e.
                  throw-Fails _
                    (λ w k. (k, λ refused. absurd (ground (arith, mismatch-plain, refused)))))))
            (old_block-Known from i)))

  note_rejection-Base :
      (k : ℕ) (f : Failure)
      → since ≤ k
      → RefusedAt o k
      → Holds (Known (suc k) f) (note_rejection f) (λ h. Base (suc k)) (Base (suc k))
  unfolding note_rejection mark
  note_rejection-Base k f low first =
      if-Holds (includes (error_message f) work_rejection)
        (λ e.
          >>=-Holds {middle = λ marked. Base (suc k)}
            (record {
              runs = λ w (h, caused).
                  let (l, above, high, second) = caused e in
                  (h.0, λ noted. (k, l, low, omega (arith, above), high, first, second));
            })
            (λ marked. throw-Holds f (λ w h. h)))
        (λ e. throw-Holds f (λ w h. h.0))

  update_work-Base :
      (from : ℕ) (id hash json : String)
      → Holds (Base from) (update_work id hash json) (λ b. Base from) (Base from)
  unfolding update_work
  update_work-Base from id hash json = record { runs = λ w h. h }

  work_again-Base :
      (i : Intent) (k : ℕ)
      → since ≤ k
      → RefusedAt o k
      → Holds (Base (suc k)) (work_again o task i) (λ h. Base (suc k)) (Base (suc k))
  unfolding work_again
  work_again-Base i k low first = after_lift-Holds _ (λ block parsed.
      after_lift-Holds _ (λ subject of_block.
        >>=-Holds (ask_any-Holds _ (Base-IsStable (suc k))) (λ work.
          >>=-Holds (assert_current-Holds task.account_address (Base-IsStable (suc k))) (λ current.
            >>=-Holds (update_work-Base (suc k) _ _ _) (λ changed.
              if-Holds changed
                (λ e.
                  >>=-Holds
                    (Fails-Holds (
                      catch-Fails (publish_receive-Known (suc k) i _)
                        (λ f. Holds-Fails (note_rejection-Base k f low first))))
                    (λ h. pure-Holds (some h) (λ w q. q)))
                (λ e. pure-Holds none (λ w q. q)))))))

  rework_receive-Base :
      (i : Intent) (f : Failure)
      → Holds (Known since f) (rework_receive o task i f) (λ h. Base since) (Base since)
  unfolding rework_receive
  rework_receive-Base i f =
      if-Holds (is_lease_lost f) (λ e. throw-Holds f (λ w h. h.0))
        (λ e.
          if-Holds (not (includes (error_message f) work_rejection))
            (λ e'. throw-Holds f (λ w h. h.0))
            (λ e'. record {
              runs = λ w (h, caused).
                  let (k, low, high, first) = caused (ground (arith, e')) in
                  (Holds-weaken {bad' = Base since} {good' = λ x. Base since}
                      (work_again-Base i k low first) (λ v q. q)
                      (λ a v q. (omega (arith, q.0, low), q.1))
                      (λ v q. (omega (arith, q.0, low), q.1))).runs
                    w (omega (arith, high), h.1);
            }))

  create_intent-Base :
      (owners : Db → List String) (i : Intent)
      → Holds (Base since) (create_intent owners i) (λ j. Base since) (Base since)
  unfolding create_intent
  create_intent-Base owners i = record {
    runs = λ w h.
        let (rows, row) = Intents.create_if_absent (owners w.db) i w.intents in
        after_insert (Base since) (record w { intents = rows }) row h;
  }

  steady : IsStable o (Base since)
  steady = Base-IsStable since

  prepare_receive-Base : Holds (Base since) (prepare_receive o task) (λ i. Base since) (Base since)
  unfolding prepare_receive
  prepare_receive-Base = >>=-Holds (ask_any-Holds _ steady) (λ info.
      >>=-Holds (ask_any-Holds _ steady) (λ signed. after_lift-Holds _ (λ block parsed.
        after_lift-Holds _ (λ subject at. >>=-Holds (ask_any-Holds _ steady) (λ work.
          >>=-Holds (assert_current-Holds task.account_address steady)
            (λ current. >>=-Holds (read_any-Holds _) (λ now. create_intent-Base _ _)))))))

  receive_task-Base : Holds (Base since) (receive_task o task) (λ a. Base since) (Base since)
  unfolding receive_task
  receive_task-Base = >>=-Holds (read_any-Holds _) (λ stored.
      >>=-Holds
        (option-Holds (λ x. Base since) stored prepare_receive-Base (λ i. pure-Holds i (λ w h. h)))
        (λ i.
          >>=-Holds
            (Fails-Holds (
              catch-Fails
                (>>=-Fails (publish_receive-Known since i i.block_json)
                  (λ h. pure-Fails (some h) (λ w k. k)))
                (λ f. Holds-Fails (rework_receive-Base i f))))
            (λ accepted.
              option-Holds (λ x. Base since) accepted (pure-Holds tt (λ w h. h))
                (λ hash. record_received-Holds o task hash steady (Base-IsApart since)))))

  receive_failed-Base :
      (f : Failure) → Holds (Base since) (receive_failed o task f) (λ a. Base since) (Base since)
  unfolding receive_failed
  receive_failed-Base f =
      if-Holds (is_lease_lost f) (λ e. throw-Holds f (λ w h. h))
        (λ e. >>=-Holds (assert_current-Holds task.account_address steady) (λ current.
          >>=-Holds (read_any-Holds _) (λ marks.
            if-Holds (marks.broadcast_started && not marks.repeated_work_rejection)
              (λ e'. pure-Holds tt (λ w h. h))
              (λ e'. retry_later-Holds o task f (Base-IsApart since)))))

  process_task_under_lease-Justified :
      (w : World) → since ≡ w.calls → Justified (process_task_under_lease o task w).0
  unfolding process_task_under_lease mark
  process_task_under_lease-Justified w at =
      (after_state (Base since) (process_task_under_lease o task w) (
        (>>=-Holds {middle = λ begun. Base since}
            (record { runs = λ v h. (h, λ e. absurd (ground (arith, e))) })
            (λ begun. catch-Holds receive_task-Base receive_failed-Base)).runs
          w (omega (arith, at)))).1

-- How an attempt ends: the tasks `rows` are as they were, or the task is published, or it is counted.
abbrev pub Ended : Outside → ReceiveTask → ReceiveTask → World → Pred
Ended o task r v w =
    (w.db.receive_tasks ≡ v.db.receive_tasks)
    ⊎ (HasRow task.id published r.retry_count w
        ⊎ (HasRow task.id (if leb 3 (suc task.retry_count) then failed else pending)
              (suc task.retry_count) w
            × ((w.broadcasts ≡ v.broadcasts) ⊎ RefusedTwice o v.calls w)))

-- An attempt at a receive task that is in the store, whatever the node, the engine, the lease and the
-- clock answer, ends in one of three ways. The tasks are as they were; or the task is published, with
-- its count of attempts as it was; or its count is one higher and it is pending again, or failed from
-- the third attempt on. In the last case no block was handed to the node in the attempt, or at two
-- calls of the attempt the node's answer, to a block or to a question about one, is the error that the
-- work is too low. The address of the account does not have the text of that error in it.
pub process_task_under_lease-Ended :
    (o : Outside) (task r : ReceiveTask) (w : World)
    → includes (error_message (lease_lost task.account_address)) work_rejection ≡ false
    → get task.id w.db.receive_tasks ≡ some r
    → Ended o task r w (process_task_under_lease o task w).0
process_task_under_lease-Ended o task r w plain found =
    let justified = process_task_under_lease-Justified o task plain w.calls w refl in
    elim (process_task_under_lease-Noted o task r w found) [
      | inl same ↦ inl same
      | inr (inl done) ↦ inr (inl done)
      | inr (inr (row, inl quiet)) ↦ inr (inr (row, inl quiet))
      | inr (inr (row, inr noted)) ↦ inr (inr (row, inr (justified noted)))
    ]
