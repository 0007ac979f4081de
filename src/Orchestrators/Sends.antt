-- ===== src/Orchestrators/Sends.antt =====
-- `SendOrchestrator` of packages/runtime/src/send-orchestrator.ts.
use rai_flow.Prelude.{
  ℕ, ◌-◌, String, Bool, true, false, Option, none, some, List, ◌∷◌, ◌==◌, string_eq, if◌then◌else◌,
  ltb, any, map,
}
use rai_flow.Model.{
  Event, EventData, Send, SendSource, SendStatus, Account, AccountType, account_type_eq, send_data,
  failed_send_data,
}
use rai_flow.Storage.Db.{Db}
use rai_flow.Accounts.Store as Accounts
use rai_flow.Intents.Store.{Intent}
use rai_flow.Intents.Store as Intents
use rai_flow.Storage.Refunds.Sends.{update}
use rai_flow.Orchestrators.World.{
  Failure, lease_lost, message, Answer, throws, gives, World, Run, ◌>>=◌, pure, throw, catch,
  error_message, includes, balance_of, frontier_of, Outside, clock, ask, assert_current, lift,
  process_block, read, in_db, emit, create_intent, update_work,
}

-- What `resolveSource` answers.
pub record Source : Type 0 where
  pub address : String
  pub derivation_index : Option ℕ
  pub account : Option Account

unfoldable pub resolve_source : SendSource → List Account → Answer Source
resolve_source (SendSource.invoice invoice_id address index) accounts =
    gives (record { address = address; derivation_index = some index; account = none })
resolve_source (SendSource.account account_id address index) accounts =
    elim (Accounts.get account_id accounts) [
      | none ↦ throws (message "Managed source account not found")
      | some a ↦
          if a.type == AccountType.managed
          then gives (record {
            address = a.address;
            derivation_index = a.derivation_index;
            account = some a;
          })
          else throws (message "Managed source account not found")
    ]

abbrev pub send_event : Outside → World → String → Send → EventData → Event
send_event o w type send payload = record {
  sequence = none;
  id = o.uuid w.calls;
  type = type;
  timestamp = clock o w;
  payload = payload;
  resource_id = send.id;
  resource_type = "send";
}

-- `'0'.repeat(64)`, the frontier of an account that has no block.
abbrev pub no_frontier : String
no_frontier = "0000000000000000000000000000000000000000000000000000000000000000"

-- Setting the send to failed, with its event.
unfoldable pub fail_send : Outside → Send → String → String → Run (Unit {0})
fail_send o send address reason = do
  current ← assert_current o address
  here ← read (λ w. w)
  failed ← in_db (
      update send.id (record {
        status = SendStatus.failed;
        block_hash = none;
        published_at = none;
        confirmed_at = none;
      }))
  emit o (send_event o here "send.failed" failed (failed_send_data failed reason))

abbrev spent : ℕ → ℕ → Answer ℕ
spent balance amount =
    if ltb balance amount then throws (message "Insufficient balance") else gives (balance - amount)

abbrev pub send_ids : Db → List String
send_ids db = map (λ (s : Send). s.id) db.sends

-- The signed block of a send, stored before it is published.
unfoldable pub prepare : Outside → Send → Source → Run Intent
prepare o send source = do
  info ← ask o (λ k. o.account_info k source.address)
  let frontier = frontier_of no_frontier info
  funds ← lift (spent (balance_of info) send.amount_raw)
  signed ← ask o (λ k. o.sign k (record {
    address = source.address;
    subject = send.destination;
    resulting_balance_raw = funds;
    frontier = frontier;
    derivation_index = source.derivation_index;
  }))
  block ← lift (o.parse signed.contents)
  work ← ask o (λ k. o.generate_work k frontier)
  current ← assert_current o source.address
  now ← read (clock o)
  create_intent send_ids (record {
    owner_id = send.id;
    block_hash = signed.hash;
    block_json = o.with_work block work;
    frontier = frontier;
    resulting_balance_raw = funds;
    created_at = now;
  })

unfoldable pub prepare_failed : Outside → Send → String → Failure → Run (Option Intent)
prepare_failed o send address failure =
    if error_message failure == "Insufficient balance"
    then (do done ← fail_send o send address (error_message failure); pure none)
    else pure none

-- The intent to publish; `none` where `publishSendUnderLease` returns without one.
unfoldable pub intent_for : Outside → Send → Source → Run (Option Intent)
intent_for o send source = do
  stored ← read (λ w. Intents.get send.id w.intents)
  elim stored [
    | some intent ↦ pure (some intent)
    | none ↦
        catch (do intent ← prepare o send source; pure (some intent))
          (prepare_failed o send source.address)
  ]

-- The handler of `publish`: a block that the node calls old may be on the ledger already.
unfoldable pub old_block : Outside → Intent → Failure → Run String
old_block o intent failure =
    if includes (error_message failure) "Old block"
    then (do
      existing ← ask o (λ k. o.block_info k intent.block_hash)
      elim existing [ none ↦ throw failure | some info ↦ pure intent.block_hash ])
    else throw failure

unfoldable pub publish : Outside → Send → String → Intent → String → Run String
publish o send address intent block_json = do
  current ← assert_current o address
  catch
      (do
        hash ← process_block o send.id block_json
        if hash == intent.block_hash
            then pure hash
            else throw (message "Published block hash did not match the saved send intent"))
      (old_block o intent)

abbrev pub work_rejection : String
work_rejection = "Block work is less than threshold"

-- Publishing once more with new work; `none` where the stored intent is another one.
unfoldable pub publish_reworked : Outside → Send → String → Intent → Run (Option String)
publish_reworked o send address intent = do
  block ← lift (o.parse intent.block_json)
  work ← ask o (λ k. o.generate_work k intent.frontier)
  current ← assert_current o address
  changed ← update_work send.id intent.block_hash (o.with_work block work)
  if changed
      then (do hash ← publish o send address intent (o.with_work block work); pure (some hash))
      else pure none

abbrev pub is_lease_lost : Failure → Bool
is_lease_lost (lease_lost address) = true
is_lease_lost (message m) = false

unfoldable pub rework_failed : Outside → Send → String → Failure → Run (Option String)
rework_failed o send address failure =
    if is_lease_lost failure
    then throw failure
    else if includes (error_message failure) work_rejection
    then (do done ← fail_send o send address (error_message failure); pure none)
    else pure none

unfoldable pub publish_failed : Outside → Send → String → Intent → Failure → Run (Option String)
publish_failed o send address intent failure =
    if is_lease_lost failure
    then throw failure
    else if includes (error_message failure) work_rejection
    then catch (publish_reworked o send address intent) (rework_failed o send address)
    else pure none

-- The accepted hash; `none` where the block is not on its way for certain.
unfoldable pub accepted_hash : Outside → Send → String → Intent → Run (Option String)
accepted_hash o send address intent =
    catch (do hash ← publish o send address intent intent.block_json; pure (some hash))
      (publish_failed o send address intent)

abbrev pub source_patch : String → ℕ → Accounts.Patch
source_patch hash balance_raw = record Accounts.no_patch {
  frontier = some hash;
  balance_raw = some balance_raw;
}

unfoldable pub update_source : Option Account → String → ℕ → ℕ → Run (Unit {0})
update_source none hash balance_raw now = pure tt
update_source (some a) hash balance_raw now = do
  account ← in_db (Accounts.update a.id (source_patch hash balance_raw) now)
  pure tt

unfoldable pub record_published : Outside → Send → Source → Intent → String → Run (Unit {0})
record_published o send source intent hash = do
  current ← assert_current o source.address
  here ← read (λ w. w)
  published ← in_db (
      update send.id (record {
        status = SendStatus.published;
        block_hash = some hash;
        published_at = some (clock o here);
        confirmed_at = none;
      }))
  moved ← update_source source.account hash intent.resulting_balance_raw (clock o here)
  emit o (send_event o here "send.published" published (send_data published))

-- `startConfirmation`, as far as the set of running confirmations goes.
unfoldable pub start_confirmation : String → String → Run (Unit {0})
start_confirmation send_id hash w =
    if any (λ (c : String × String). c.0 == send_id) w.confirming
    then (w, gives tt)
    else (record w { confirming = (send_id, hash) ∷ w.confirming }, gives tt)

unfoldable pub settle_published : Outside → Send → Source → Intent → String → Run (Unit {0})
settle_published o send source intent hash = do
  recorded ←
      catch (do done ← record_published o send source intent hash; pure true)
        (λ failure. pure false)
  if recorded then start_confirmation send.id hash else pure tt

-- `publishSendUnderLease`
unfoldable pub publish_under_lease : Outside → Send → Source → Run (Unit {0})
publish_under_lease o send source = do
  found ← intent_for o send source
  elim found [
    | none ↦ pure tt
    | some intent ↦ do
      accepted ← accepted_hash o send source.address intent
      elim accepted [ none ↦ pure tt | some hash ↦ settle_published o send source intent hash ]
  ]
