-- ===== src/Orchestrators/Published.antt =====
-- How publishing a send under its lease ends.
use rai_flow.Prelude.{
  ℕ, String, true, false, ◌≡◌, refl, Option, none, some, List, string_eq, map, inl, inr, ◌⊎◌, ap,
  ◌∙◌, sym,
}
use rai_flow.Model.{Account, Event, Send, SendStatus}
use rai_flow.Model.Errors.{err, ok, plain}
use rai_flow.Storage.Refunds.Sends.{Patch}
use rai_flow.Accounts.Store as Accounts
use rai_flow.Intents.Store.{Intent}
use rai_flow.Orchestrators.World.{World, ◌>>=◌, pure, Outside, clock, in_db, emit}
use rai_flow.Orchestrators.Sends.{
  Source, source_patch, update_source, record_published, settle_published, accepted_hash,
  publish_under_lease,
}
use rai_flow.Orchestrators.Hoare.{
  Pred, After, Holds, >>=-Holds, catch-Holds, pure-Holds, read_any-Holds, option-Holds,
  Holds-weaken, if-Holds, IsStable, assert_current-Holds, both-Holds, after_state,
}
use rai_flow.Orchestrators.Ledger.{IsHonest, IsStored, Sound, SoundFor, SoundFor-IsStable, hash_for}
use rai_flow.Orchestrators.Publishing.{
  Accepted, accepted_hash-Kept, settle_published-Holds, start_confirmation-Holds,
}
use rai_flow.Orchestrators.Confirming.{Never}
use rai_flow.Orchestrators.OneBlock as OneBlock
use rai_flow.Orchestrators.Outcomes.{
  Same, Updated, Stopped, Found, intent_for-Found, Tried, accepted_hash-Tried, update-Updated,
  emit-Updated, steady,
}

abbrev pub to_published : String → ℕ → Patch
to_published hash now = record {
  status = SendStatus.published;
  block_hash = some hash;
  published_at = some now;
  confirmed_at = none;
}

module _ (o : Outside) (send : Send) (rows : List Send) where
  abbrev pub Published : String → Pred
  Published hash w = (now : ℕ) × Updated o send rows (to_published hash now) w

  -- The table is as it was, or the send is published.
  abbrev Settled : String → Pred
  Settled hash w = Same o send rows w ⊎ Published hash w

  after_account :
      (hash : String) (patch : Accounts.Patch) (id : String) (now : ℕ) (w : World)
      (known : Option Account)
      → Published hash w
      → After
          (λ (a : Account). Published hash)
          (Published hash)
          (in_db
            (λ db. elim known [
              | none ↦ err (plain "Account not found")
              | some existing ↦ ok (
                record db {
                  accounts =
                      map (Accounts.replaced id (Accounts.patched patch now existing)) db.accounts;
                },
                Accounts.patched patch now existing,
              )
            ])
            w)
  unfolding in_db
  after_account hash patch id now w none h = h
  after_account hash patch id now w (some a) h = h

  update_source-Published :
      (account : Option Account) (hash : String) (balance_raw now : ℕ)
      → Holds
          (Published hash)
          (update_source account hash balance_raw now)
          (λ a. Published hash)
          (Published hash)
  unfolding update_source Accounts.update in_db
  update_source-Published none hash balance_raw now = pure-Holds tt (λ w h. h)
  update_source-Published (some a) hash balance_raw now =
      >>=-Holds
        (record {
          runs = λ w h.
              after_account hash (source_patch hash balance_raw) a.id now w
                (Accounts.get a.id w.db.accounts) h;
        })
        (λ updated. pure-Holds tt (λ w h. h))

  emit-Published :
      {bad : Pred} (hash : String) (event : Event)
      → Holds (Published hash) (emit o event) (λ a. Published hash) bad
  unfolding emit
  emit-Published hash event = record {
    runs = λ w (now, h).
        (now, (emit-Updated o send rows {bad = Never} (to_published hash now) event).runs w h);
  }

  record_published-Settled :
      (source : Source) (i : Intent) (hash : String)
      → Holds
          (Same o send rows)
          (record_published o send source i hash)
          (λ a. Published hash)
          (Settled hash)
  unfolding record_published
  record_published-Settled source i hash =
      >>=-Holds
        (Holds-weaken (assert_current-Holds source.address (steady o send rows)) (λ w h. h)
          (λ a w h. h) (λ w h. inl h))
        (λ current. >>=-Holds (read_any-Holds _) (λ here.
          let patch = to_published hash (clock o here) in
          >>=-Holds
            (Holds-weaken (update-Updated o send rows patch) (λ w h. h) (λ s w h. (clock o here, h))
              (λ w h. inl h))
            (λ s.
              >>=-Holds
                (Holds-weaken (update_source-Published source.account hash _ _) (λ w h. h)
                  (λ a w h. h) (λ w h. inr h))
                (λ moved. emit-Published hash _))))

  settle-Settled :
      (source : Source) (i : Intent) (hash : String)
      → Holds
          (Same o send rows)
          (settle_published o send source i hash)
          (λ a. Settled hash)
          (Settled hash)
  unfolding settle_published
  settle-Settled source i hash =
      >>=-Holds
        (catch-Holds
          (>>=-Holds (record_published-Settled source i hash)
            (λ done. pure-Holds true (λ w h. inr h)))
          (λ f. pure-Holds false (λ w h. h)))
        (λ recorded.
          if-Holds recorded (λ e. start_confirmation-Holds send.id hash (λ w c h. h))
            (λ e. pure-Holds tt (λ w h. h)))

module _ (o : Outside) (hash_of : String → String) (honest : IsHonest o hash_of) (send : Send)
    (rows : List Send) where
  -- How publishing ends, with the intents that are then stored.
  abbrev pub Ends : Pred
  Ends w =
      Stopped o send rows w
      ⊎ ((hash : String) × (hash_for send.id w.intents ≡ some hash) × Published o send rows hash w)

  settle-Ends :
      (source : Source) (i : Intent) (hash : String)
      → IsStored hash_of send.id i
      → Holds
          (λ w.
            Same o send rows w × (SoundFor hash_of send.id i.block_hash w × (hash ≡ i.block_hash)))
          (settle_published o send source i hash)
          (λ a. Ends)
          Ends
  settle-Ends source i hash at =
      Holds-weaken
        (both-Holds (settle-Settled o send rows source i hash) (
          settle_published-Holds o hash_of honest send source i hash (with_hash i.block_hash hash)
            (λ w db h. h) (λ w c h. h)))
        (λ w h. (h.0, h.1)) (λ a. ended) ended
    where
      with_hash :
          (block_hash h : String)
          → IsStable o (λ w. SoundFor hash_of send.id block_hash w × (h ≡ block_hash))
      with_hash block_hash h = record {
        keeps = λ w q. ((SoundFor-IsStable send.id block_hash honest).keeps w q.0, q.1);
      }

      ended :
          (w : World)
          → Settled o send rows hash w
            × (SoundFor hash_of send.id i.block_hash w × (hash ≡ i.block_hash))
          → Ends w
      ended w (inl same, (known, e)) = inl (inl same)
      ended w (inr done, (known, e)) = inr (hash, known.1 ∙ ap some (sym e), done)

  publish_intent-Ends :
      (source : Source) (i : Intent)
      → IsStored hash_of send.id i
      → Holds
          (λ w. Same o send rows w × SoundFor hash_of send.id i.block_hash w)
          (do
            accepted ← accepted_hash o send source.address i
            elim accepted [ none ↦ pure tt | some hash ↦ settle_published o send source i hash ])
          (λ a. Ends)
          Ends
  publish_intent-Ends source i at =
      >>=-Holds
        (Holds-weaken
          (both-Holds (accepted_hash-Tried o send rows source.address i)
            (accepted_hash-Kept o hash_of honest send.id i at send source.address refl))
          (λ w h. h) (λ a w h. h) (λ w h. inl h.0))
        (λ accepted.
          option-Holds (λ x w. Tried o send rows x w × Accepted o hash_of honest send.id i at x w)
            accepted (pure-Holds tt (λ w h. inl h.0)) (λ hash. settle-Ends source i hash at))

  publish_under_lease-Ends :
      (source : Source)
      → Holds
          (λ w. Same o send rows w × Sound hash_of w)
          (publish_under_lease o send source)
          (λ a. Ends)
          Ends
  unfolding publish_under_lease
  publish_under_lease-Ends source =
      >>=-Holds
        (Holds-weaken
          (both-Holds (intent_for-Found o send rows source)
            (OneBlock.intent_for-Found o hash_of honest send source))
          (λ w h. h) (λ a w h. h) (λ w h. inl h.0))
        (λ found.
          option-Holds (λ x w. Found o send rows x w × OneBlock.Found o hash_of honest send.id x w)
            found (pure-Holds tt (λ w h. inl h.0))
            (λ i. record {
              runs =
                  λ w (same, (known, at)). (publish_intent-Ends source i at).runs w (same, known);
            }))

-- Publishing a send under the lease of its account starts in a state in which every broadcast is
-- the block of a stored intent. Whatever the node, the lease and the clock answer, and provided
-- that the engine answers, if at all, with the hash of the block that it signs, that the hash of a
-- block does not look at its work, and that other orchestrators store blocks under their hash, it
-- ends in one of three ways: the sends are as they were; or the row stored for the send has failed
-- and no other row is touched; or that row is published with the block hash of the intent that is
-- stored for the send, and no other row is touched.
pub publish_under_lease_lem :
    (o : Outside) (hash_of : String → String) (honest : IsHonest o hash_of) (send : Send)
    (source : Source) (w : World)
    → Sound hash_of w
    → Ends o hash_of honest send w.db.sends (publish_under_lease o send source w).0
publish_under_lease_lem o hash_of honest send source w sound =
    after_state (Ends o hash_of honest send w.db.sends) (publish_under_lease o send source w)
      ((publish_under_lease-Ends o hash_of honest send w.db.sends source).runs w (refl, sound))
