-- ===== src/Orchestrators/Hoare.antt =====
-- Reasoning about runs that may throw: what holds of the state before, what holds of it after an
-- answer, and what holds of it after a throw.
use rai_flow.Prelude.{
  ℕ, suc, String, Bool, true, false, ◌≡◌, refl, Option, none, some, if◌then◌else◌, ◌⊎◌, inl, inr,
}
use rai_flow.Model.{Event}
use rai_flow.Model.Errors.{Result, ok, err}
use rai_flow.Storage.Db.{Db}
use rai_flow.Intents.Store as Intents
use rai_flow.Orchestrators.World.{
  Failure, Answer, throws, gives, World, Run, ◌>>=◌, pure, throw, catch, Outside, ask,
  assert_current, checked, lift, read, in_db, emit, run_under_lease,
}

abbrev pub Pred : Type 1
Pred = World → Type 0

-- What the outcome of a run satisfies.
abbrev pub After : {A : Type 0} → (A → Pred) → Pred → World × Answer A → Type 0
After good bad (w, gives a) = good a w
After good bad (w, throws f) = bad w

pub record Holds {A : Type 0} (before : Pred) (run : Run A) (good : A → Pred) (bad : Pred)
    : Type 0 where
  pub runs : (w : World) → before w → After good bad (run w)

after_bind :
    {A B : Type 0} {bad : Pred} {middle : A → Pred} {good : B → Pred} (next : A → Run B)
    (o : World × Answer A)
    → ((a : A) → Holds (middle a) (next a) good bad)
    → After middle bad o
    → After good bad (((λ w. o) >>= next) o.0)
unfolding ◌>>=◌
after_bind next (w, throws f) k h = h
after_bind next (w, gives a) k h = (k a).runs w h

pub >>=-Holds :
    {A B : Type 0} {before bad : Pred} {middle : A → Pred} {good : B → Pred} {first : Run A}
    {next : A → Run B}
    → Holds before first middle bad
    → ((a : A) → Holds (middle a) (next a) good bad)
    → Holds before (first >>= next) good bad
unfolding ◌>>=◌
>>=-Holds {first} {next} h k = record { runs = λ w p. after_bind next (first w) k (h.runs w p) }

after_catch :
    {A : Type 0} {bad middle : Pred} {good : A → Pred} (handler : Failure → Run A)
    (o : World × Answer A)
    → ((f : Failure) → Holds middle (handler f) good bad)
    → After good middle o
    → After good bad (catch (λ w. o) handler o.0)
unfolding catch
after_catch handler (w, throws f) k h = (k f).runs w h
after_catch handler (w, gives a) k h = h

pub catch-Holds :
    {A : Type 0} {before bad middle : Pred} {good : A → Pred} {first : Run A}
    {handler : Failure → Run A}
    → Holds before first good middle
    → ((f : Failure) → Holds middle (handler f) good bad)
    → Holds before (catch first handler) good bad
unfolding catch
catch-Holds {first} {handler} h k = record {
  runs = λ w p. after_catch handler (first w) k (h.runs w p);
}

pub pure-Holds :
    {A : Type 0} {before bad : Pred} {good : A → Pred} (a : A)
    → ((w : World) → before w → good a w)
    → Holds before (pure a) good bad
unfolding pure
pure-Holds a h = record { runs = h }

pub throw-Holds :
    {A : Type 0} {before bad : Pred} {good : A → Pred} (f : Failure)
    → ((w : World) → before w → bad w)
    → Holds before (throw {A = A} f) good bad
unfolding throw
throw-Holds f h = record { runs = h }

pub read-Holds :
    {A : Type 0} {before bad : Pred} (f : World → A)
    → Holds before (read f) (λ a w. before w × (f w ≡ a)) bad
unfolding read
read-Holds f = record { runs = λ w p. (p, refl) }

pub lift-Holds :
    {A : Type 0} {before : Pred} (a : Answer A)
    → Holds before (lift a) (λ x w. before w × (a ≡ gives x)) before
unfolding lift
lift-Holds (throws f) = record { runs = λ w p. p }
lift-Holds (gives a) = record { runs = λ w p. (p, refl) }

weaker :
    {A : Type 0} {bad bad' : Pred} {good good' : A → Pred} (o : World × Answer A)
    → ((a : A) (w : World) → good a w → good' a w)
    → ((w : World) → bad w → bad' w)
    → After good bad o
    → After good' bad' o
weaker (w, throws f) post fail q = fail w q
weaker (w, gives a) post fail q = post a w q

-- A weaker claim.
pub Holds-weaken :
    {A : Type 0} {before before' bad bad' : Pred} {good good' : A → Pred} {run : Run A}
    → Holds before run good bad
    → ((w : World) → before' w → before w)
    → ((a : A) (w : World) → good a w → good' a w)
    → ((w : World) → bad w → bad' w)
    → Holds before' run good' bad'
Holds-weaken {run} h pre post fail = record {
  runs = λ w p. weaker (run w) post fail (h.runs w (pre w p));
}

pub if-Holds :
    {A : Type 0} {before bad : Pred} {good : A → Pred} {yes_run no_run : Run A} (b : Bool)
    → (b ≡ true → Holds before yes_run good bad)
    → (b ≡ false → Holds before no_run good bad)
    → Holds before (if b then yes_run else no_run) good bad
if-Holds true yes_case no_case = yes_case refl
if-Holds false yes_case no_case = no_case refl

-- What an answer from outside and the calls of the others do not disturb.
pub record IsStable (o : Outside) (p : Pred) : Type 0 where
  pub keeps :
      (w : World)
      → p w
      → p (record w { calls = suc w.calls; intents = (Intents.run (o.others w.calls) w.intents).0 })

after_answer :
    {A : Type 0} (p : Pred) (w : World) (k : ℕ) (answer : ℕ → Answer A) (a : Answer A)
    → answer k ≡ a
    → p w
    → After (λ x w'. p w' × (j : ℕ) × (answer j ≡ gives x)) p (w, a)
after_answer p w k answer (throws f) e h = h
after_answer p w k answer (gives a) e h = (h, k, e)

pub ask-Holds :
    {A : Type 0} {o : Outside} {p : Pred} (answer : ℕ → Answer A)
    → IsStable o p
    → Holds p (ask o answer) (λ a w. p w × (k : ℕ) × (answer k ≡ gives a)) p
unfolding ask
ask-Holds {p} answer stable = record {
  runs = λ w h. after_answer p _ w.calls answer (answer w.calls) refl (stable.keeps w h);
}

-- The case where the answer does not matter.
pub ask_any-Holds :
    {A : Type 0} {o : Outside} {p : Pred} (answer : ℕ → Answer A)
    → IsStable o p
    → Holds p (ask o answer) (λ a. p) p
ask_any-Holds answer stable =
    Holds-weaken (ask-Holds answer stable) (λ w h. h) (λ a w h. h.0) (λ w h. h)

pub assert_current-Holds :
    {o : Outside} {p : Pred} (address : String)
    → IsStable o p
    → Holds p (assert_current o address) (λ a. p) p
assert_current-Holds {o} address stable = ask_any-Holds (checked o address) stable

-- What does not look at the tables other than the intents.
abbrev pub IsApart : Pred → Type 0
IsApart p = (w : World) (db : Db) → p w → p (record w { db = db })

after_call :
    {A : Type 0} {p : Pred} (w : World) (r : Result (Db × A))
    → IsApart p
    → p w
    → After (λ (a : A). p) p (in_db (λ db. r) w)
unfolding in_db
after_call w (err e) apart h = h
after_call w (ok (db, a)) apart h = apart w db h

pub in_db-Holds :
    {A : Type 0} {p : Pred} (call : Db → Result (Db × A))
    → IsApart p
    → Holds p (in_db call) (λ a. p) p
unfolding in_db
in_db-Holds call apart = record { runs = λ w h. after_call w (call w.db) apart h }

pub emit-Holds :
    {p : Pred} (o : Outside) (event : Event) → IsApart p → Holds p (emit o event) (λ a. p) p
unfolding emit
emit-Holds o event apart = record { runs = λ w h. apart w _ h }

pub run_under_lease-Holds :
    {A : Type 0} {o : Outside} {p : Pred} {operation : Run A} (address : String)
    → IsStable o p
    → Holds p operation (λ a. p) p
    → Holds p (run_under_lease o address operation) (λ a. p) p
unfolding run_under_lease
run_under_lease-Holds {o} address stable h = >>=-Holds (ask_any-Holds _ stable) (λ acquired.
    if-Holds acquired
      (λ e. >>=-Holds (assert_current-Holds address stable) (λ before. >>=-Holds h (λ result.
        >>=-Holds (assert_current-Holds address stable) (λ after. pure-Holds _ (λ w q. q)))))
      (λ e. pure-Holds _ (λ w q. q)))

-- A call, and what follows it for each of its answers.
pub after_ask-Holds :
    {A B : Type 0} {o : Outside} {p : Pred} {good : B → Pred} {next : A → Run B}
    (answer : ℕ → Answer A)
    → IsStable o p
    → ((k : ℕ) (a : A) → answer k ≡ gives a → Holds p (next a) good p)
    → Holds p (ask o answer >>= next) good p
after_ask-Holds answer stable h =
    >>=-Holds (ask-Holds answer stable) (λ a. record { runs = λ w (s, k, e). (h k a e).runs w s })

pub after_lift-Holds :
    {A B : Type 0} {p : Pred} {good : B → Pred} {next : A → Run B} (answer : Answer A)
    → ((a : A) → answer ≡ gives a → Holds p (next a) good p)
    → Holds p (lift answer >>= next) good p
after_lift-Holds answer h =
    >>=-Holds (lift-Holds answer) (λ a. record { runs = λ w q. (h a q.1).runs w q.0 })

-- Reading the state, where the answer does not matter.
pub read_any-Holds : {A : Type 0} {p bad : Pred} (f : World → A) → Holds p (read f) (λ a. p) bad
read_any-Holds f = Holds-weaken (read-Holds f) (λ w h. h) (λ a w h. h.0) (λ w h. h)

pub option-Holds :
    {A B : Type 0} {bad : Pred} {good : B → Pred} {absent : Run B} {present : A → Run B}
    (before : Option A → Pred) (x : Option A)
    → Holds (before none) absent good bad
    → ((a : A) → Holds (before (some a)) (present a) good bad)
    → Holds (before x) (elim x [ none ↦ absent | some a ↦ present a ]) good bad
option-Holds before none h k = h
option-Holds before (some a) h k = k a

pub after_state :
    {A : Type 0} (p : Pred) (outcome : World × Answer A) → After (λ a. p) p outcome → p outcome.0
after_state p (w, throws f) h = h
after_state p (w, gives a) h = h

-- What a run keeps, whether it throws or not, holds of the state after it.
pub same_after :
    {A : Type 0} {p : Pred} {run : Run A} → Holds p run (λ a. p) p → (w : World) → p w → p (run w).0
same_after {p} {run} h w s = after_state p (run w) (h.runs w s)

-- Two cases of the state before.
pub or-Holds :
    {A : Type 0} {p q bad : Pred} {good : A → Pred} {run : Run A}
    → Holds p run good bad
    → Holds q run good bad
    → Holds (λ w. p w ⊎ q w) run good bad
or-Holds h k = record { runs = λ w c. elim c [ inl x ↦ h.runs w x | inr x ↦ k.runs w x ] }

both_after :
    {A : Type 0} (bad bad' : Pred) (good good' : A → Pred) (outcome : World × Answer A)
    → After good bad outcome
    → After good' bad' outcome
    → After (λ a w. good a w × good' a w) (λ w. bad w × bad' w) outcome
both_after bad bad' good good' (w, throws f) h k = (h, k)
both_after bad bad' good good' (w, gives a) h k = (h, k)

-- Two claims of one run.
pub both-Holds :
    {A : Type 0} {p p' bad bad' : Pred} {good good' : A → Pred} {run : Run A}
    → Holds p run good bad
    → Holds p' run good' bad'
    → Holds (λ w. p w × p' w) run (λ a w. good a w × good' a w) (λ w. bad w × bad' w)
both-Holds {bad} {bad'} {good} {good'} {run} h k = record {
  runs = λ w q. both_after bad bad' good good' (run w) (h.runs w q.0) (k.runs w q.1);
}
