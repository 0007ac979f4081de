-- ===== src/Orchestrators/Attempts.antt =====
-- What one attempt at a receive task does to the task, on every path through
-- `processTaskUnderLease`.
use rai_flow.Prelude.{
  ℕ, suc, String, Bool, true, false, not, ◌&&◌, ◌≡◌, refl, none, some, List, [], ◌∷◌, ◌==◌,
  string_eq, if◌then◌else◌, leb, any, map, arith, eq_iff, inl, inr, ◌⊎◌, Bool-cases, ap, ◌∙◌,
}
use rai_flow.Model.{Event, ReceiveTask, ReceiveTaskStatus, published, pending, failed}
use rai_flow.Model.Errors.{Result, ok, err, plain}
use rai_flow.Storage.Db.{Db, append_event}
use rai_flow.Intents.Store.{Intent}
use rai_flow.Intents.Store as Intents
use rai_flow.Orchestrators.World.{
  Failure, Answer, message, throws, gives, error_message, includes, World, Marks, mark, Outside,
  Broadcast, clock, process_block, in_db, emit, create_intent, update_work, error_text,
}
use rai_flow.Orchestrators.Sends.{is_lease_lost, work_rejection, old_block}
use rai_flow.Orchestrators.Tasks.{get, Patch, patched, replaced, clashes, update}
use rai_flow.Orchestrators.Receives.{
  prepare_receive, publish_receive, note_rejection, work_again, rework_receive, record_received,
  receive_task, retry_later, receive_failed, process_task_under_lease, set_started, published_patch,
  failed_patch, again_patch,
}
use rai_flow.Orchestrators.Hoare.{
  Pred, After, Holds, >>=-Holds, catch-Holds, pure-Holds, throw-Holds, read-Holds, read_any-Holds,
  option-Holds, after_lift-Holds, Holds-weaken, if-Holds, IsStable, ask_any-Holds,
  assert_current-Holds, after_state, IsApart,
}

get-id :
    (id : String) (rows : List ReceiveTask) (t : ReceiveTask) → get id rows ≡ some t → t.id ≡ id
get-id id [] t e = cc
get-id id (r ∷ rows) t e = ground (arith, eq_iff r.id id, get-id id rows t)

get-replaced :
    (id : String) (new t : ReceiveTask) (rows : List ReceiveTask)
    → get id rows ≡ some t
    → new.id ≡ id
    → get id (map (replaced id new) rows) ≡ some (record new { created_at = t.created_at })
get-replaced id new t [] e h = cc
get-replaced id new t (r ∷ rows) e h = elim (Bool-cases (r.id == id)) [
  | inl here ↦
      let same : r ≡ t = ground (arith, e, here) in
      rw here (
        rw ((eq_iff new.id id).1 h)
          (ap (λ (u : ReceiveTask). some (record new { created_at = u.created_at })) same))
  | inr other ↦ rw (other, other) (get-replaced id new t rows (ground (arith, e, other)) h)
]

-- A patch that leaves the id and the pending hash as they are.
abbrev IsLocal : Patch → Type 0
IsLocal patch = (patch.id ≡ none) × (patch.pending_block_hash ≡ none)

local_id : (patch : Patch) (t : ReceiveTask) → IsLocal patch → (patched patch t).id ≡ t.id
local_id patch t h = ground arith

local_clashes :
    (patch : Patch) (new : ReceiveTask) (rows : List ReceiveTask)
    → IsLocal patch
    → clashes patch new rows ≡ false
local_clashes patch new rows h = ground arith

-- What neither looks at the intents nor at the number of calls.
abbrev pub IsQuiet : Pred → Type 0
IsQuiet p = (w : World) (i : List Intent) (k : ℕ) → p w → p (record w { intents = i; calls = k })

pub after_insert :
    (p : Pred) (w : World) (row : Result Intent)
    → p w
    → After (λ j. p) p (w, elim row [ err e ↦ throws (message (error_text e)) | ok i ↦ gives i ])
after_insert p w (err e) h = h
after_insert p w (ok i) h = h

pub create_intent-Holds :
    {p : Pred} (owners : Db → List String) (i : Intent)
    → IsQuiet p
    → Holds p (create_intent owners i) (λ j. p) p
unfolding create_intent
create_intent-Holds {p} owners i quiet = record {
  runs = λ w h.
      after_insert p _ (Intents.create_if_absent (owners w.db) i w.intents).1 (quiet w _ w.calls h);
}

pub update_work-Holds :
    {p : Pred} (id hash json : String) → IsQuiet p → Holds p (update_work id hash json) (λ b. p) p
unfolding update_work
update_work-Holds id hash json quiet = record { runs = λ w h. quiet w _ w.calls h }

-- A task with a status and a count of attempts.
pub record HasRow (id : String) (status : ReceiveTaskStatus) (retry_count : ℕ) (w : World)
    : Type 0 where
  pub row : ReceiveTask
  pub at : get id w.db.receive_tasks ≡ some row
  pub status_is : row.status ≡ status
  pub count_is : row.retry_count ≡ retry_count

module _ (o : Outside) (task r : ReceiveTask) (rows : List ReceiveTask) (sent : List Broadcast)
    (found : get task.id rows ≡ some r) where
  -- The task is as it was, and a block that was handed over has been noted.
  abbrev Open : Pred
  Open w =
      (w.db.receive_tasks ≡ rows) × ((w.broadcasts ≡ sent) ⊎ (w.marks.broadcast_started ≡ true))

  abbrev Begun : Pred
  Begun w = (w.db.receive_tasks ≡ rows) × (w.marks.broadcast_started ≡ true)

  Open-IsStable : IsStable o Open
  Open-IsStable = record { keeps = λ w h. h }

  Begun-IsStable : IsStable o Begun
  Begun-IsStable = record { keeps = λ w h. h }

  prepare_receive-Open : Holds Open (prepare_receive o task) (λ i. Open) Open
  unfolding prepare_receive
  prepare_receive-Open = >>=-Holds (ask_any-Holds _ Open-IsStable) (λ info.
      >>=-Holds (ask_any-Holds _ Open-IsStable) (λ signed. after_lift-Holds _ (λ block parsed.
        after_lift-Holds _ (λ subject at. >>=-Holds (ask_any-Holds _ Open-IsStable) (λ work.
          >>=-Holds (assert_current-Holds task.account_address Open-IsStable) (λ current.
            >>=-Holds (read_any-Holds _) (λ now. create_intent-Holds _ _ (λ w i k h. h))))))))

  process_block-Begun :
      (id json : String) → Holds Begun (process_block o id json) (λ a. Begun) Begun
  unfolding process_block
  process_block-Begun id json = record { runs = λ w h. (ask_any-Holds _ Begun-IsStable).runs _ h }

  old_block-Begun : (i : Intent) (f : Failure) → Holds Begun (old_block o i f) (λ a. Begun) Begun
  unfolding old_block
  old_block-Begun i f =
      if-Holds (includes (error_message f) "Old block")
        (λ e. >>=-Holds (ask_any-Holds _ Begun-IsStable) (λ existing.
          option-Holds (λ x. Begun) existing (throw-Holds f (λ w h. h))
            (λ b. pure-Holds i.block_hash (λ w h. h))))
        (λ e. throw-Holds f (λ w h. h))

  Begun-Open : (w : World) → Begun w → Open w
  Begun-Open w h = (h.0, inr h.1)

  start_mark : Holds Open (mark set_started) (λ a. Begun) Open
  unfolding mark
  start_mark = record { runs = λ w h. (h.0, refl) }

  publish_receive-Open :
      (i : Intent) (json : String) → Holds Open (publish_receive o task i json) (λ a. Open) Open
  unfolding publish_receive
  publish_receive-Open i json =
      >>=-Holds (assert_current-Holds task.account_address Open-IsStable) (λ a.
        >>=-Holds start_mark (λ started.
          Holds-weaken
            (catch-Holds
              (>>=-Holds (process_block-Begun task.id json) (λ h.
                if-Holds (h == i.block_hash) (λ e. pure-Holds h (λ w k. k))
                  (λ e. throw-Holds _ (λ w k. k))))
              (old_block-Begun i))
            (λ w h. h) (λ a w h. Begun-Open w h) Begun-Open))

  note_rejection-Open : (f : Failure) → Holds Open (note_rejection f) (λ a. Open) Open
  unfolding note_rejection mark
  note_rejection-Open f =
      if-Holds (includes (error_message f) work_rejection)
        (λ e. >>=-Holds (record { runs = λ w h. h }) (λ marked. throw-Holds f (λ w k. k)))
        (λ e. throw-Holds f (λ w k. k))

  rework_receive-Open :
      (i : Intent) (f : Failure) → Holds Open (rework_receive o task i f) (λ a. Open) Open
  unfolding rework_receive work_again
  rework_receive-Open i f =
      if-Holds (is_lease_lost f) (λ e. throw-Holds f (λ w k. k))
        (λ e.
          if-Holds (not (includes (error_message f) work_rejection))
            (λ e'. throw-Holds f (λ w k. k))
            (λ e'. after_lift-Holds _ (λ block parsed. after_lift-Holds _ (λ subject at.
              >>=-Holds (ask_any-Holds _ Open-IsStable) (λ work.
                >>=-Holds (assert_current-Holds task.account_address Open-IsStable) (λ current.
                  >>=-Holds (update_work-Holds _ _ _ (λ w j k h. h)) (λ changed.
                    if-Holds changed
                      (λ e''.
                        >>=-Holds (catch-Holds (publish_receive-Open i _) note_rejection-Open)
                          (λ h. pure-Holds (some h) (λ w k. k)))
                      (λ e''. pure-Holds none (λ w k. k)))))))))

  -- What a patch does to the task.
  abbrev Patched : Patch → Pred → Pred
  Patched patch x w = HasRow task.id (patched patch r).status (patched patch r).retry_count w × x w

  abbrev Still : Pred → Pred
  Still x w = (w.db.receive_tasks ≡ rows) × x w

  -- The answer of an update of the row `t`, by whether a patched hash is taken.
  abbrev answer : Patch → ReceiveTask → Bool → World → World × Answer ReceiveTask
  answer patch t clash w =
      in_db
        (λ db.
          if clash
          then err (plain "UNIQUE constraint failed: receive_tasks.pending_block_hash")
          else ok (
            record db {
              receive_tasks =
                  map (replaced (patched patch t).id (patched patch t)) db.receive_tasks;
            },
            patched patch t,
          ))
        w

  after_answer :
      (patch : Patch) (x : Pred) (t : ReceiveTask) (clash : Bool) (w : World)
      → IsLocal patch
      → IsApart x
      → clash ≡ false
      → t ≡ r
      → get task.id w.db.receive_tasks ≡ some r
      → x w
      → After (λ (u : ReceiveTask). Patched patch x) (Still x) (answer patch t clash w)
  unfolding in_db
  after_answer patch x t true w alone apart e same at h = cc
  after_answer patch x t false w alone apart e same at h =
      let named : (patched patch t).id ≡ task.id =
        local_id patch t alone
        ∙ ap (λ (u : ReceiveTask). u.id) same
        ∙ get-id task.id w.db.receive_tasks r at in
      (
        record {
          row = record (patched patch t) { created_at = r.created_at };
          at =
              ap (λ k. get task.id (map (replaced k (patched patch t)) w.db.receive_tasks)) named
              ∙ get-replaced task.id (patched patch t) r w.db.receive_tasks at named;
          status_is = ap (λ (u : ReceiveTask). (patched patch u).status) same;
          count_is = ap (λ (u : ReceiveTask). (patched patch u).retry_count) same;
        },
        apart w _ h,
      )

  update-Patched :
      (patch : Patch) (x : Pred)
      → IsLocal patch
      → IsApart x
      → Holds
          (Still x)
          (in_db (update task.id patch))
          (λ (t : ReceiveTask). Patched patch x)
          (Still x)
  unfolding update in_db
  update-Patched patch x alone apart = record {
    runs = λ w h.
        let at : get task.id w.db.receive_tasks ≡ some r = ap (get task.id) h.0 ∙ found in
        rw (update, in_db, at)
          (after_answer patch x r _ w alone apart
            (local_clashes patch (patched patch r) w.db.receive_tasks alone) refl at h.1);
  }

  emit-Patched :
      {bad : Pred} (patch : Patch) (x : Pred) (event : Event)
      → IsApart x
      → Holds (Patched patch x) (emit o event) (λ a. Patched patch x) bad
  unfolding emit append_event
  emit-Patched patch x event apart = record {
    runs = λ w h. elim (Bool-cases (any (λ (e : Event). e.id == event.id) w.db.events)) [
      | inl seen ↦ rw seen (kept w _ refl h)
      | inr fresh ↦ rw fresh (kept w _ refl h)
    ];
  }
    where
      kept :
          (w : World) (db : Db)
          → db.receive_tasks ≡ w.db.receive_tasks
          → Patched patch x w
          → Patched patch x (record w { db = db })
      kept w db same (row, h) = (
        record {
          row = row.row;
          at = ap (get task.id) same ∙ row.at;
          status_is = row.status_is;
          count_is = row.count_is;
        },
        apart w db h,
      )

  -- Nothing was handed over in the attempt, or a repeated rejection has been noted.
  abbrev pub MayRetry : Pred
  MayRetry w = (w.broadcasts ≡ sent) ⊎ (w.marks.repeated_work_rejection ≡ true)

  abbrev pub next_status : ReceiveTaskStatus
  next_status = if leb 3 (suc task.retry_count) then failed else pending

  abbrev pub Counted : Pred
  Counted w = HasRow task.id next_status (suc task.retry_count) w × MayRetry w

  -- How an attempt ends.
  abbrev pub Ended : Pred
  Ended w = (w.db.receive_tasks ≡ rows) ⊎ (HasRow task.id published r.retry_count w ⊎ Counted w)

  is_counted :
      (status : ReceiveTaskStatus)
      → status ≡ next_status
      → (w : World) → HasRow task.id status (suc task.retry_count) w × MayRetry w
      → Ended w
  is_counted status e w (row, h) = inr (
      inr (
        record {
          row = row.row;
          at = row.at;
          status_is = row.status_is ∙ e;
          count_is = row.count_is;
        },
        h,
      ))

  update_or_still :
      (patch : Patch)
      → IsLocal patch
      → Holds
          (Still MayRetry)
          (in_db (update task.id patch))
          (λ (t : ReceiveTask). Patched patch MayRetry)
          Ended
  update_or_still patch alone =
      Holds-weaken (update-Patched patch MayRetry alone (λ w db h. h)) (λ w h. h) (λ a w h. h)
        (λ w h. inl h.0)

  retry_later-Ended :
      (f : Failure) → Holds (Still MayRetry) (retry_later o task f) (λ a. Ended) Ended
  unfolding retry_later
  retry_later-Ended f = >>=-Holds (read_any-Holds _) (λ here.
      if-Holds (leb 3 (suc task.retry_count))
        (λ e.
          let patch = failed_patch (clock o here) (error_message f) (suc task.retry_count) in
          >>=-Holds (update_or_still patch (refl, refl)) (λ t.
            Holds-weaken
              (catch-Holds {middle = Patched patch MayRetry}
                (emit-Patched patch MayRetry _ (λ w db h. h)) (λ g. pure-Holds tt (λ w h. h)))
              (λ w h. h) (is_failed e) (λ w h. h)))
        (λ e.
          let patch = again_patch (suc task.retry_count) in
          >>=-Holds (update_or_still patch (refl, refl))
            (λ t. pure-Holds tt (is_counted pending (ground (arith, e))))))
    where
      is_failed :
          leb 3 (suc task.retry_count) ≡ true
          → (a : Unit {0}) (w : World) → HasRow task.id failed (suc task.retry_count) w × MayRetry w
          → Ended w
      is_failed e a = is_counted failed (ground (arith, e))

  receive_failed-Ended : (f : Failure) → Holds Open (receive_failed o task f) (λ a. Ended) Ended
  unfolding receive_failed
  receive_failed-Ended f =
      if-Holds (is_lease_lost f) (λ e. throw-Holds f (λ w h. inl h.0))
        (λ e.
          >>=-Holds
            (Holds-weaken (assert_current-Holds task.account_address Open-IsStable) (λ w h. h)
              (λ a w h. h) (λ w h. inl h.0))
            (λ current. >>=-Holds (read-Holds (λ (w : World). w.marks)) (λ marks.
              if-Holds (marks.broadcast_started && not marks.repeated_work_rejection)
                (λ e'. pure-Holds tt (λ w h. inl h.0.0))
                (λ e'.
                  Holds-weaken (retry_later-Ended f) (λ w h. may_retry marks w e' h) (λ a w h. h)
                    (λ w h. h)))))
    where
      may_retry :
          (marks : Marks) (w : World)
          → (marks.broadcast_started && not marks.repeated_work_rejection) ≡ false
          → Open w × (w.marks ≡ marks)
          → Still MayRetry w
      may_retry marks w e (h, same) = (
        h.0,
        elim h.1 [
          | inl none_sent ↦ inl none_sent
          | inr started ↦ inr (
              ground (
                arith,
                ap (λ (m : Marks). m.broadcast_started) same,
                ap (λ (m : Marks). m.repeated_work_rejection) same,
              ))
        ],
      )

  record_received-Ended :
      (hash : String) → Holds Open (record_received o task hash) (λ a. Ended) Open
  unfolding record_received
  record_received-Ended hash =
      >>=-Holds (assert_current-Holds task.account_address Open-IsStable) (λ current.
        >>=-Holds (read_any-Holds _) (λ here.
          let patch = published_patch (clock o here) hash in
          let noted : Pred = λ w. (w.broadcasts ≡ sent) ⊎ (w.marks.broadcast_started ≡ true) in
          >>=-Holds (update-Patched patch noted (refl, refl) (λ w db h. h)) (λ t.
            Holds-weaken (emit-Patched {bad = Open} patch noted _ (λ w db h. h)) (λ w h. h)
              (λ a w h. inr (inl h.0)) (λ w h. h))))

  receive_task-Ended : Holds Open (receive_task o task) (λ a. Ended) Open
  unfolding receive_task
  receive_task-Ended = >>=-Holds (read_any-Holds _) (λ stored.
      >>=-Holds
        (option-Holds (λ x. Open) stored prepare_receive-Open (λ i. pure-Holds i (λ w h. h)))
        (λ i.
          >>=-Holds
            (catch-Holds
              (>>=-Holds (publish_receive-Open i i.block_json)
                (λ h. pure-Holds (some h) (λ w k. k)))
              (rework_receive-Open i))
            (λ accepted.
              option-Holds (λ x. Open) accepted (pure-Holds tt (λ w h. inl h.0))
                record_received-Ended)))

-- The end of an attempt, with what the attempt has noted.
pub process_task_under_lease-Noted :
    (o : Outside) (task r : ReceiveTask) (w : World)
    (found : get task.id w.db.receive_tasks ≡ some r)
    → Ended o task r w.db.receive_tasks w.broadcasts found (process_task_under_lease o task w).0
unfolding process_task_under_lease mark
process_task_under_lease-Noted o task r w found =
    after_state (Ended o task r w.db.receive_tasks w.broadcasts found)
      (process_task_under_lease o task w)
      ((>>=-Holds (record { runs = λ v h. h })
          (λ begun.
            catch-Holds (receive_task-Ended o task r w.db.receive_tasks w.broadcasts found)
              (receive_failed-Ended o task r w.db.receive_tasks w.broadcasts found))).runs
        w (refl, inl refl))
