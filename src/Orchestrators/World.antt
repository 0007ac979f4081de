-- ===== src/Orchestrators/World.antt =====
-- What an orchestrator reads and changes, and the calls that it makes. A call may throw: the state
-- at that point stays. The answers of the RPC node, of the custody engine, of the lease and of the
-- clock are a parameter, which is asked by the number of the call. Before each of those answers the
-- orchestrators of other processes may use the same intent store.
use rai_flow.Prelude.{
  ℕ, ◌+◌, suc, String, Bool, true, false, ◌||◌, Option, none, some, List, [], ◌∷◌, if◌then◌else◌,
}
use Prim.Native.String.{◌++◌}
use text.Mathlib.Text.{starts_with}
use rai_flow.Model.{Event}
use rai_flow.Model.Errors.{Error, coded, plain, Result, ok, err}
use rai_flow.Storage.Db.{Db, append_event}
use rai_flow.Intents.Store.{Intent, Call}
use rai_flow.Intents.Store as Intents

-- An `AccountOperationLeaseLostError`, or any other error by its message.
pub data Failure : Type 0 where
  lease_lost : (address : String) → Failure
  message : String → Failure

pub data Answer (A : Type 0) : Type 0 where
  throws : Failure → Answer A
  gives : A → Answer A

-- A block handed to `client.process`, for the send or the receive task with an id.
pub record Broadcast : Type 0 where
  pub owner_id : String
  pub block_json : String

-- The local variables of `processNext` and of `processTaskUnderLease`, which are set where a later
-- throw does not undo it. A send orchestrator has none.
pub record Marks : Type 0 where
  pub acquired : Bool
  pub broadcast_started : Bool
  pub repeated_work_rejection : Bool

abbrev pub no_marks : Marks
no_marks = record { acquired = false; broadcast_started = false; repeated_work_rejection = false }

-- `intents` is the table of the orchestrator's own kind; `broadcasts` is kept for the theorems alone;
-- `confirming` has the confirmations that run, by send and block hash; `slept` is the time spent in
-- `setTimeout`, in milliseconds.
pub record World : Type 0 where
  pub db : Db
  pub intents : List Intent
  pub broadcasts : List Broadcast
  pub confirming : List (String × String)
  pub calls : ℕ
  pub slept : ℕ
  pub marks : Marks

abbrev pub start : Db → World
start db = record {
  db = db;
  intents = [];
  broadcasts = [];
  confirming = [];
  calls = 0;
  slept = 0;
  marks = no_marks;
}

abbrev pub Run : Type 0 → Type 0
Run A = World → World × Answer A

infixl 5 ◌>>=◌
unfoldable pub ◌>>=◌ : {A B : Type 0} → Run A → (A → Run B) → Run B
(first >>= next) w =
    let (w', a) = first w in elim a [ throws f ↦ (w', throws f) | gives x ↦ next x w' ]

unfoldable pub pure : {A : Type 0} → A → Run A
pure a w = (w, gives a)

unfoldable pub throw : {A : Type 0} → Failure → Run A
throw f w = (w, throws f)

unfoldable pub catch : {A : Type 0} → Run A → (Failure → Run A) → Run A
catch first handler w =
    let (w', a) = first w in elim a [ throws f ↦ handler f w' | gives x ↦ (w', gives x) ]

-- `error.message`
abbrev pub error_message : Failure → String
error_message (lease_lost address) = "Account operation lease lost for " ++ address
error_message (message m) = m

-- `String.prototype.includes`
unfoldable pub includes : String → String → Bool
includes String.[] part = starts_with String.[] part
includes (String.◌∷◌ c s) part = starts_with (String.◌∷◌ c s) part || includes s part

-- `accountInfo`, as far as the code reads it.
pub record AccountInfo : Type 0 where
  pub balance : ℕ
  pub frontier : String

abbrev pub balance_of : Option AccountInfo → ℕ
balance_of none = 0
balance_of (some info) = info.balance

-- The frontier, or what stands for it where the account has no block.
abbrev pub frontier_of : String → Option AccountInfo → String
frontier_of absent none = absent
frontier_of absent (some info) = info.frontier

-- A signed block.
pub record Signed : Type 0 where
  pub hash : String
  pub contents : String

-- What `signSend` and `signReceive` are asked; `subject` is the destination or the pending block.
pub record Request : Type 0 where
  pub address : String
  pub subject : String
  pub resulting_balance_raw : ℕ
  pub frontier : String
  pub derivation_index : Option ℕ

-- The outside, by the number of the call. `parse` is `JSON.parse` of a block, and `with_work` sets
-- the work of a parsed block and prints it. `sign` and
-- `generate_work` are `signSend` and `generateWork` for a send, `signReceive` and
-- `generateReceiveWork` for a receive.
pub record Outside : Type 0 where
  pub acquires : ℕ → String → Bool
  pub is_current : ℕ → Bool
  pub others : ℕ → List Call
  pub account_info : ℕ → String → Answer (Option AccountInfo)
  pub process : ℕ → String → Answer String
  pub block_info : ℕ → String → Answer (Option Bool)
  pub sign : ℕ → Request → Answer Signed
  pub generate_work : ℕ → String → Answer String
  pub public_key : String → Answer String
  pub parse : String → Answer String
  pub with_work : String → String → String
  pub now : ℕ → ℕ
  pub uuid : ℕ → String
  pub job_uuid : String → String → String

-- `Date.now()`: the time outside of sleeps, which `now` gives by the number of calls, and the sleeps.
abbrev pub clock : Outside → World → ℕ
clock o w = o.now w.calls + w.slept

unfoldable pub sleep : ℕ → Run (Unit {0})
sleep ms w = (record w { slept = w.slept + ms }, gives tt)

unfoldable pub mark : (Marks → Marks) → Run (Unit {0})
mark change w = (record w { marks = change w.marks }, gives tt)

-- The next answer from outside.
unfoldable pub ask : {A : Type 0} → Outside → (ℕ → Answer A) → Run A
ask o answer w = (
  record w { calls = suc w.calls; intents = (Intents.run (o.others w.calls) w.intents).0 },
  answer w.calls,
)

-- `assertCurrent`
abbrev pub checked : Outside → String → ℕ → Answer (Unit {0})
checked o address k = elim (o.is_current k) [
  | true ↦ gives tt
  | false ↦ throws (lease_lost address)
]

abbrev pub assert_current : Outside → String → Run (Unit {0})
assert_current o address = ask o (checked o address)

unfoldable pub lift : {A : Type 0} → Answer A → Run A
lift a w = (w, a)

-- `client.process`, whose block is on its way whatever the answer is.
unfoldable pub process_block : Outside → String → String → Run String
process_block o owner_id json w =
    ask o (λ k. o.process k json)
      (record w { broadcasts = record { owner_id = owner_id; block_json = json } ∷ w.broadcasts })

unfoldable pub read : {A : Type 0} → (World → A) → Run A
read f w = (w, gives (f w))

abbrev pub error_text : Error → String
error_text (coded code m) = m
error_text (plain m) = m

-- A call of a store other than the intents.
unfoldable pub in_db : {A : Type 0} → (Db → Result (Db × A)) → Run A
in_db call w = elim (call w.db) [
  | err e ↦ (w, throws (message (error_text e)))
  | ok (db, a) ↦ (record w { db = db }, gives a)
]

-- `emitEvent`, as far as the store goes.
unfoldable pub emit : Outside → Event → Run (Unit {0})
emit o event w = (record w { db = (append_event (o.job_uuid event.id) event w.db).0 }, gives tt)

-- `owners` reads the ids of the table that an intent refers to: the sends, or the receive tasks.
unfoldable pub create_intent : (owners : Db → List String) → Intent → Run Intent
create_intent owners intent w =
    let (rows, row) = Intents.create_if_absent (owners w.db) intent w.intents in
    (
      record w { intents = rows },
      elim row [ err e ↦ throws (message (error_text e)) | ok i ↦ gives i ],
    )

unfoldable pub update_work : String → String → String → Run Bool
update_work owner_id block_hash block_json w =
    let (rows, changed) = Intents.update_work owner_id block_hash block_json w.intents in
    (record w { intents = rows }, gives changed)

-- `AccountOperationExecutor.run`; the lease itself is the subject of the module Leases.
unfoldable pub run_under_lease : {A : Type 0} → Outside → String → Run A → Run (Option A)
run_under_lease o address operation = do
  acquired ← ask o (λ k. gives (o.acquires k address))
  if acquired
      then (do
        before ← assert_current o address
        result ← operation
        after ← assert_current o address
        pure (some result))
      else pure none
