-- ===== src/Orchestrators/OneBlock.antt =====
-- The broadcasts of a send orchestrator beside its stored intents, for every operation up to `tick`.
use rai_flow.Prelude.{
  String, ◌≡◌, refl, Option, none, some, List, [], ◌∷◌, ◌==◌, string_eq, arith, All, sym, ap, ◌∙◌,
}
use mathlib.Core.List.{Memᴰ}
use mathlib.Core.List.Memᴰ.{head, tail}
use rai_flow.Model.{Send, send_status_eq}
use rai_flow.Intents.Store.{Intent, get}
use rai_flow.Orchestrators.World.{Failure, error_message, World, ◌>>=◌, pure, Outside, Broadcast}
use rai_flow.Orchestrators.Sends.{
  Source, prepare_failed, intent_for, is_lease_lost, publish_under_lease, accepted_hash,
  settle_published,
}
use rai_flow.Orchestrators.Ticks.{
  guarded_publish, publish_send, start_all, publish_all, tick, Callback, ticks, polls, ends,
  elsewhere, Reach, begins, later,
}
use rai_flow.Orchestrators.Hoare.{
  Pred, Holds, >>=-Holds, catch-Holds, pure-Holds, throw-Holds, read-Holds, read_any-Holds,
  option-Holds, after_lift-Holds, Holds-weaken, if-Holds, IsStable, run_under_lease-Holds,
  same_after,
}
use rai_flow.Orchestrators.Ledger.{
  IsHonest, IsOf, hash_for, Sound, SoundFor, Sound-IsApart, SoundFor-IsApart, IsStored,
  get-IsStored,
}
use rai_flow.Orchestrators.Polling.{poll-Holds}
use rai_flow.Orchestrators.Publishing.{
  fail_send-Holds, stable, Ready, prepare-Ready, kept, Accepted, accepted_hash-Kept,
  settle_published-Holds, start_confirmation-Holds,
}

All-Mem : {A : Type 0} (P : A → Type 0) {a : A} {xs : List A} → Memᴰ a xs → All P xs → P a
All-Mem P (head e) h = rw e h.0
All-Mem P (tail m) h = All-Mem P m h.1

some_inj : {x y : String} → some x ≡ some y → x ≡ y
some_inj e = ground arith

module _ (o : Outside) (hash_of : String → String) (honest : IsHonest o hash_of) where
  steady : IsStable o (Sound hash_of)
  steady = stable o hash_of honest

  abbrev pub Found : String → Option Intent → Pred
  Found id none w = Sound hash_of w
  Found id (some i) w = Ready o hash_of honest id i w

  prepare_failed-Found :
      (send : Send) (address : String) (f : Failure)
      → Holds (Sound hash_of) (prepare_failed o send address f) (Found send.id) (Sound hash_of)
  unfolding prepare_failed
  prepare_failed-Found send address f =
      if-Holds (error_message f == "Insufficient balance")
        (λ e.
          >>=-Holds (fail_send-Holds o send address _ steady Sound-IsApart)
            (λ done. pure-Holds none (λ w s. s)))
        (λ e. pure-Holds none (λ w s. s))

  pub intent_for-Found :
      (send : Send) (source : Source)
      → Holds (Sound hash_of) (intent_for o send source) (Found send.id) (Sound hash_of)
  unfolding intent_for
  intent_for-Found send source =
      >>=-Holds (read-Holds (λ (w : World). get send.id w.intents)) (λ stored.
        option-Holds (λ x w. Sound hash_of w × (get send.id w.intents ≡ x)) stored
          (catch-Holds
            (Holds-weaken
              (>>=-Holds (prepare-Ready o hash_of honest send source)
                (λ i. pure-Holds (some i) (λ w s. s)))
              (λ w h. h.0) (λ a w h. h) (λ w h. h))
            (prepare_failed-Found send source.address))
          (λ i.
            pure-Holds (some i) (λ w (s, e).
              ((s, ground arith), get-IsStored hash_of send.id i w.intents s.stored e))))

  publish_intent-Sound :
      (send : Send) (source : Source) (i : Intent)
      → IsStored hash_of send.id i
      → Holds
          (SoundFor hash_of send.id i.block_hash)
          (do
            accepted ← accepted_hash o send source.address i
            elim accepted [ none ↦ pure tt | some hash ↦ settle_published o send source i hash ])
          (λ a. Sound hash_of)
          (Sound hash_of)
  publish_intent-Sound send source i at =
      Holds-weaken
        (>>=-Holds (accepted_hash-Kept o hash_of honest send.id i at send source.address refl)
          (λ accepted.
            option-Holds (Accepted o hash_of honest send.id i at) accepted
              (pure-Holds tt (λ w s. s))
              (λ hash.
                Holds-weaken
                  (settle_published-Holds o hash_of honest send source i hash
                    (kept o hash_of honest send.id i at) (SoundFor-IsApart send.id i.block_hash)
                    (λ w c s. s))
                  (λ w s. s.0) (λ a w s. s) (λ w s. s))))
        (λ w s. s) (λ a w s. s.0) (λ w s. s.0)

  publish_under_lease-Sound :
      (send : Send) (source : Source)
      → Holds
          (Sound hash_of)
          (publish_under_lease o send source)
          (λ a. Sound hash_of)
          (Sound hash_of)
  unfolding publish_under_lease
  publish_under_lease-Sound send source = >>=-Holds (intent_for-Found send source) (λ found.
      option-Holds (Found send.id) found (pure-Holds tt (λ w s. s))
        (λ i. record { runs = λ w (s, at). (publish_intent-Sound send source i at).runs w s }))

  publish_send-Sound :
      (send : Send)
      → Holds (Sound hash_of) (publish_send o send) (λ a. Sound hash_of) (Sound hash_of)
  unfolding publish_send guarded_publish
  publish_send-Sound send =
      catch-Holds
        (>>=-Holds (read_any-Holds _) (λ accounts. after_lift-Holds _ (λ source found.
          >>=-Holds
            (run_under_lease-Holds source.address steady (
              catch-Holds (publish_under_lease-Sound send source) (λ f.
                if-Holds (is_lease_lost f) (λ e. throw-Holds f (λ w s. s))
                  (λ e. pure-Holds tt (λ w s. s)))))
            (λ done. pure-Holds tt (λ w s. s)))))
        (λ f. pure-Holds tt (λ w s. s))

  publish_all-Sound :
      (sends : List Send)
      → Holds (Sound hash_of) (publish_all o sends) (λ a. Sound hash_of) (Sound hash_of)
  unfolding publish_all
  publish_all-Sound [] = pure-Holds tt (λ w s. s)
  publish_all-Sound (s ∷ sends) = >>=-Holds (publish_send-Sound s) (λ done. publish_all-Sound sends)

  start_all-Sound :
      (sends : List Send)
      → Holds (Sound hash_of) (start_all sends) (λ a. Sound hash_of) (Sound hash_of)
  unfolding start_all
  start_all-Sound [] = pure-Holds tt (λ w s. s)
  start_all-Sound (s ∷ sends) =
      >>=-Holds
        (option-Holds (λ x. Sound hash_of) s.block_hash (pure-Holds tt (λ w s. s))
          (λ hash. start_confirmation-Holds s.id hash (λ w c s. s)))
        (λ started. start_all-Sound sends)

  tick-Sound : Holds (Sound hash_of) (tick o) (λ a. Sound hash_of) (Sound hash_of)
  unfolding tick
  tick-Sound = >>=-Holds (read_any-Holds _) (λ ready.
      >>=-Holds (read_any-Holds _)
        (λ sent. >>=-Holds (start_all-Sound sent) (λ started. publish_all-Sound ready)))

  -- Every step of the orchestrator and of the program around it keeps the ledger sound.
  Reach-Sound : {on_confirmed : Callback} {w : World} → Reach o on_confirmed w → Sound hash_of w
  Reach-Sound (begins db) = record { stored = tt; known = tt }
  Reach-Sound (later {w} r ticks) = same_after tick-Sound w (Reach-Sound r)
  Reach-Sound {on_confirmed} (later {w} r (polls id hash)) =
      same_after (poll-Holds on_confirmed id hash steady Sound-IsApart) w (Reach-Sound r)
  Reach-Sound (later r (ends id)) = Reach-Sound r
  Reach-Sound (later r (elsewhere db)) = Reach-Sound r

-- Two broadcasts of one owner are of the block that is stored for it.
pub same_hash :
    (hash_of : String → String) (w : World) (a b : Broadcast)
    → Sound hash_of w
    → Memᴰ a w.broadcasts
    → Memᴰ b w.broadcasts
    → a.owner_id ≡ b.owner_id
    → hash_of a.block_json ≡ hash_of b.block_json
same_hash hash_of w a b sound in_a in_b same =
    let of_a = All-Mem (IsOf hash_of w.intents) in_a sound.known in
    let of_b = All-Mem (IsOf hash_of w.intents) in_b sound.known in
    some_inj (sym of_a ∙ ap (λ id. hash_for id w.intents) same ∙ of_b)

-- In every run of a send orchestrator, beside others that create and rework intents of their own
-- and whatever the node, the lease and the clock answer, two blocks handed to the node for one send
-- have the same hash, provided that the engine answers, if at all, with the hash of the block that
-- it signs, that the hash of a block does not look at its work, and that the others store blocks
-- under their hash.
pub one_block :
    (o : Outside) (hash_of : String → String) (on_confirmed : Callback) (w : World)
    (a b : Broadcast)
    → IsHonest o hash_of
    → Reach o on_confirmed w
    → Memᴰ a w.broadcasts
    → Memᴰ b w.broadcasts
    → a.owner_id ≡ b.owner_id
    → hash_of a.block_json ≡ hash_of b.block_json
one_block o hash_of on_confirmed w a b honest reach in_a in_b same =
    same_hash hash_of w a b (Reach-Sound o hash_of honest reach) in_a in_b same
