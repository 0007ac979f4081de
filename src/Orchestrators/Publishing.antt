-- ===== src/Orchestrators/Publishing.antt =====
-- What preparing and publishing a block keeps of the ledger of intents and broadcasts: `prepare`,
-- `publish` and the handlers around them in send-orchestrator.ts.
use rai_flow.Prelude.{
  ℕ, String, Bool, true, false, ◌≡◌, refl, Option, none, some, List, [], ◌∷◌, ◌++◌, ◌==◌, string_eq,
  any, arith, eq_iff, inl, inr, Bool-cases, ◌∙◌,
}
use rai_flow.Model.{Account, Send}
use rai_flow.Model.Errors.{Result, ok, err}
use rai_flow.Storage.Db.{Db}
use rai_flow.Intents.Store.{Intent, get, step, creates, updates, create_if_absent, selected}
use rai_flow.Orchestrators.World.{
  Failure, message, includes, error_message, throws, gives, World, ◌>>=◌, pure, throw, Outside,
  process_block, create_intent, update_work, error_text,
}
use rai_flow.Orchestrators.Sends.{
  Source, fail_send, prepare, old_block, publish, publish_reworked, is_lease_lost, work_rejection,
  rework_failed, publish_failed, accepted_hash, update_source, record_published, start_confirmation,
  settle_published,
}
use rai_flow.Orchestrators.Hoare.{
  Pred, Holds, After, >>=-Holds, catch-Holds, pure-Holds, throw-Holds, read_any-Holds,
  after_ask-Holds, after_lift-Holds, if-Holds, IsStable, ask_any-Holds, assert_current-Holds,
  IsApart, in_db-Holds, emit-Holds,
}
use rai_flow.Orchestrators.Ledger.{
  IsSound, IsHonest, IsSound-step, hash_for-step, Sound, SoundFor, Sound-IsStable,
  SoundFor-IsStable, SoundFor-IsApart, IsStored, get-IsStored,
}

-- What an operation of the orchestrator on the other tables keeps.
pub fail_send-Holds :
    {p : Pred} (o : Outside) (send : Send) (address reason : String)
    → IsStable o p
    → IsApart p
    → Holds p (fail_send o send address reason) (λ a. p) p
unfolding fail_send
fail_send-Holds o send address reason stable apart =
    >>=-Holds (assert_current-Holds address stable) (λ a.
      >>=-Holds (read_any-Holds _)
        (λ b. >>=-Holds (in_db-Holds _ apart) (λ c. emit-Holds o _ apart)))

update_source-Holds :
    {p : Pred} (account : Option Account) (hash : String) (balance_raw now : ℕ)
    → IsApart p
    → Holds p (update_source account hash balance_raw now) (λ a. p) p
unfolding update_source
update_source-Holds none hash balance_raw now apart = pure-Holds tt (λ w h. h)
update_source-Holds (some a) hash balance_raw now apart =
    >>=-Holds (in_db-Holds _ apart) (λ b. pure-Holds tt (λ w h. h))

record_published-Holds :
    {p : Pred} (o : Outside) (send : Send) (source : Source) (i : Intent) (hash : String)
    → IsStable o p
    → IsApart p
    → Holds p (record_published o send source i hash) (λ a. p) p
unfolding record_published
record_published-Holds o send source i hash stable apart =
    >>=-Holds (assert_current-Holds source.address stable) (λ a.
      >>=-Holds (read_any-Holds _) (λ here. >>=-Holds (in_db-Holds _ apart) (λ published.
        >>=-Holds (update_source-Holds source.account hash _ _ apart) (λ c. emit-Holds o _ apart))))

pub start_confirmation-Holds :
    {p : Pred} (id hash : String)
    → ((w : World) (c : List (String × String)) → p w → p (record w { confirming = c }))
    → Holds p (start_confirmation id hash) (λ a. p) p
unfolding start_confirmation
start_confirmation-Holds id hash quiet = record {
  runs = λ w h. elim (Bool-cases (any (λ (c : String × String). c.0 == id) w.confirming)) [
    | inl seen ↦ rw seen h
    | inr fresh ↦ rw fresh (quiet w ((id, hash) ∷ w.confirming) h)
  ];
}

module _ (o : Outside) (hash_of : String → String) (honest : IsHonest o hash_of) where
  pub stable : IsStable o (Sound hash_of)
  stable = Sound-IsStable honest

  -- What the intent of a send satisfies, once it is there.
  abbrev pub Ready : String → Intent → Pred
  Ready id i w = SoundFor hash_of id i.block_hash w × IsStored hash_of id i

  selected_from : {j : Intent} (found : Option Intent) → selected found ≡ ok j → found ≡ some j
  selected_from none e = cc
  selected_from (some i) e = ground arith

  after_insert :
      (w : World) (id : String) (rows : List Intent) (row : Result Intent)
      → IsSound hash_of rows w.broadcasts
      → ((j : Intent) → row ≡ ok j → get id rows ≡ some j)
      → After
          (λ j. Ready id j)
          (Sound hash_of)
          (
            record w { intents = rows },
            elim row [ err e ↦ throws (message (error_text e)) | ok i ↦ gives i ],
          )
  after_insert w id rows (err e) s at = s
  after_insert w id rows (ok j) s at =
      let known = at j refl in ((s, ground arith), get-IsStored hash_of id j rows s.stored known)

  inserted :
      (owners : List String) (i j : Intent) (rows : List Intent)
      → (create_if_absent owners i rows).1 ≡ ok j
      → get i.owner_id (create_if_absent owners i rows).0 ≡ some j
  unfolding create_if_absent
  inserted owners i j rows e =
      elim (Bool-cases (any (λ (k : Intent). k.owner_id == i.owner_id) rows)) [
        | inl seen ↦ rw seen (selected_from (get i.owner_id rows) (ground (arith, seen, e)))
        | inr fresh ↦ elim (Bool-cases (any (λ id. id == i.owner_id) owners)) [
          | inl owned ↦
              rw (fresh, owned)
                (selected_from (get i.owner_id (rows ++ i ∷ [])) (ground (arith, fresh, owned, e)))
          | inr missing ↦ absurd (ground (arith, fresh, missing, e))
        ]
      ]

  pub create_intent-Ready :
      (owners : Db → List String) (i : Intent)
      → hash_of i.block_json ≡ i.block_hash
      → Holds (Sound hash_of) (create_intent owners i) (λ j. Ready i.owner_id j) (Sound hash_of)
  unfolding create_intent step
  create_intent-Ready owners i good = record {
    runs = λ w s.
        after_insert w i.owner_id (create_if_absent (owners w.db) i w.intents).0
          (create_if_absent (owners w.db) i w.intents).1
          (IsSound-step hash_of (creates (owners w.db) i) w.intents w.broadcasts good s)
          (λ j. inserted (owners w.db) i j w.intents);
  }

  pub prepare-Ready :
      (send : Send) (source : Source)
      → Holds (Sound hash_of) (prepare o send source) (λ i. Ready send.id i) (Sound hash_of)
  unfolding prepare
  prepare-Ready send source = >>=-Holds (ask_any-Holds _ stable) (λ info.
      after_lift-Holds _ (λ funds affordable. after_ask-Holds _ stable (λ k signed by_engine.
        after_lift-Holds _ (λ block parsed. >>=-Holds (ask_any-Holds _ stable) (λ work.
          >>=-Holds (assert_current-Holds source.address stable) (λ current.
            >>=-Holds (read_any-Holds _) (λ now. create_intent-Ready _ _ (
              honest.works signed.contents block work parsed
              ∙ honest.signs k _ signed by_engine))))))))

  module _ (id : String) (i : Intent) (stored : IsStored hash_of id i) where
    -- The state while the intent `i` is published for `id`.
    abbrev pub Kept : Pred
    Kept = SoundFor hash_of id i.block_hash

    pub kept : IsStable o Kept
    kept = SoundFor-IsStable id i.block_hash honest

    pub process_block-Kept :
        (owner json : String)
        → owner ≡ id
        → hash_of json ≡ i.block_hash
        → Holds Kept (process_block o owner json) (λ a. Kept) Kept
    unfolding process_block
    process_block-Kept owner json same good = record {
      runs = λ w s.
          (ask_any-Holds _ kept).runs _
            (record { stored = s.0.stored; known = (ground (arith, same), s.0.known) }, s.1);
    }

    pub old_block-Kept :
        (f : Failure) → Holds Kept (old_block o i f) (λ h w. Kept w × (h ≡ i.block_hash)) Kept
    unfolding old_block
    old_block-Kept f =
        if-Holds (includes (error_message f) "Old block")
          (λ e. >>=-Holds (ask_any-Holds _ kept) existing) (λ e. throw-Holds f (λ w h. h))
      where
        existing :
            (info : Option Bool)
            → Holds Kept
                (elim info [ none ↦ throw f | some b ↦ pure i.block_hash ])
                (λ h w. Kept w × (h ≡ i.block_hash))
                Kept
        existing none = throw-Holds f (λ w h. h)
        existing (some b) = pure-Holds i.block_hash (λ w h. (h, refl))

    publish-Kept :
        (send : Send) (address json : String)
        → send.id ≡ id
        → hash_of json ≡ i.block_hash
        → Holds Kept (publish o send address i json) (λ h w. Kept w × (h ≡ i.block_hash)) Kept
    unfolding publish
    publish-Kept send address json same good = >>=-Holds (assert_current-Holds address kept) (λ a.
        catch-Holds
          (>>=-Holds (process_block-Kept send.id json same good) (λ h.
            if-Holds (h == i.block_hash)
              (λ e. pure-Holds h (λ w k. (k, (eq_iff h i.block_hash).0 e)))
              (λ e. throw-Holds _ (λ w k. k))))
          old_block-Kept)

    pub update_work-Kept :
        (owner json : String)
        → hash_of json ≡ i.block_hash
        → Holds Kept (update_work owner i.block_hash json) (λ a. Kept) Kept
    unfolding update_work step
    update_work-Kept owner json good = record {
      runs = λ w s.
          let call = updates owner i.block_hash json in
          (
            IsSound-step hash_of call w.intents w.broadcasts good s.0,
            hash_for-step call id i.block_hash w.intents s.1,
          );
    }

    -- A hash that is accepted is the one of the intent.
    abbrev pub Accepted : Option String → Pred
    Accepted none w = Kept w
    Accepted (some h) w = Kept w × (h ≡ i.block_hash)

    publish_some :
        (send : Send) (address json : String)
        → send.id ≡ id
        → hash_of json ≡ i.block_hash
        → Holds Kept (do h ← publish o send address i json; pure (some h)) Accepted Kept
    publish_some send address json same good =
        >>=-Holds (publish-Kept send address json same good) (λ h. pure-Holds (some h) (λ w k. k))

    publish_reworked-Kept :
        (send : Send) (address : String)
        → send.id ≡ id
        → Holds Kept (publish_reworked o send address i) Accepted Kept
    unfolding publish_reworked
    publish_reworked-Kept send address same = after_lift-Holds _ (λ block parsed.
        >>=-Holds (ask_any-Holds _ kept) (λ work.
          let good = honest.works i.block_json block work parsed ∙ stored.good in
          >>=-Holds (assert_current-Holds address kept) (λ current.
            >>=-Holds (update_work-Kept send.id (o.with_work block work) good) (λ changed.
              if-Holds changed (λ e. publish_some send address (o.with_work block work) same good)
                (λ e. pure-Holds none (λ w k. k))))))

    failed_or_quiet :
        (send : Send) (address : String) (f : Failure)
        → Holds Kept (rework_failed o send address f) Accepted Kept
    unfolding rework_failed
    failed_or_quiet send address f =
        if-Holds (is_lease_lost f) (λ e. throw-Holds f (λ w k. k))
          (λ e.
            if-Holds (includes (error_message f) work_rejection)
              (λ e'.
                >>=-Holds (fail_send-Holds o send address _ kept (SoundFor-IsApart id i.block_hash))
                  (λ done. pure-Holds none (λ w k. k)))
              (λ e'. pure-Holds none (λ w k. k)))

    pub accepted_hash-Kept :
        (send : Send) (address : String)
        → send.id ≡ id
        → Holds Kept (accepted_hash o send address i) Accepted Kept
    unfolding accepted_hash publish_failed
    accepted_hash-Kept send address same =
        catch-Holds (publish_some send address i.block_json same stored.good) (λ f.
          if-Holds (is_lease_lost f) (λ e. throw-Holds f (λ w k. k))
            (λ e.
              if-Holds (includes (error_message f) work_rejection)
                (λ e'.
                  catch-Holds (publish_reworked-Kept send address same)
                    (failed_or_quiet send address))
                (λ e'. pure-Holds none (λ w k. k))))

  pub settle_published-Holds :
      {p : Pred} (send : Send) (source : Source) (i : Intent) (hash : String)
      → IsStable o p
      → IsApart p
      → ((w : World) (c : List (String × String)) → p w → p (record w { confirming = c }))
      → Holds p (settle_published o send source i hash) (λ a. p) p
  unfolding settle_published
  settle_published-Holds send source i hash steady apart quiet =
      >>=-Holds
        (catch-Holds
          (>>=-Holds (record_published-Holds o send source i hash steady apart)
            (λ done. pure-Holds true (λ w h. h)))
          (λ f. pure-Holds false (λ w h. h)))
        (λ recorded.
          if-Holds recorded (λ e. start_confirmation-Holds send.id hash quiet)
            (λ e. pure-Holds tt (λ w h. h)))
