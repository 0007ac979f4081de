-- ===== src/Orchestrators/Failing.antt =====
-- Reasoning about runs where what holds after a throw depends on the failure.
use rai_flow.Prelude.{ℕ, suc, Bool, true, false, ◌≡◌, refl, if◌then◌else◌}
use rai_flow.Orchestrators.World.{
  Failure, Answer, throws, gives, World, Run, ◌>>=◌, pure, throw, catch, Outside, ask,
}
use rai_flow.Orchestrators.Hoare.{Pred, After, Holds, IsStable}

abbrev pub Outcome : {A : Type 0} → (A → Pred) → (Failure → Pred) → World × Answer A → Type 0
Outcome good bad (w, gives a) = good a w
Outcome good bad (w, throws f) = bad f w

pub record Fails {A : Type 0} (before : Pred) (run : Run A) (good : A → Pred) (bad : Failure → Pred)
    : Type 0 where
  pub runs : (w : World) → before w → Outcome good bad (run w)

outcome_bind :
    {A B : Type 0} {bad : Failure → Pred} {middle : A → Pred} {good : B → Pred} (next : A → Run B)
    (o : World × Answer A)
    → ((a : A) → Fails (middle a) (next a) good bad)
    → Outcome middle bad o
    → Outcome good bad (((λ w. o) >>= next) o.0)
unfolding ◌>>=◌
outcome_bind next (w, throws f) k h = h
outcome_bind next (w, gives a) k h = (k a).runs w h

pub >>=-Fails :
    {A B : Type 0} {before : Pred} {bad : Failure → Pred} {middle : A → Pred} {good : B → Pred}
    {first : Run A} {next : A → Run B}
    → Fails before first middle bad
    → ((a : A) → Fails (middle a) (next a) good bad)
    → Fails before (first >>= next) good bad
unfolding ◌>>=◌
>>=-Fails {first} {next} h k = record { runs = λ w p. outcome_bind next (first w) k (h.runs w p) }

outcome_catch :
    {A : Type 0} {bad middle : Failure → Pred} {good : A → Pred} (handler : Failure → Run A)
    (o : World × Answer A)
    → ((f : Failure) → Fails (middle f) (handler f) good bad)
    → Outcome good middle o
    → Outcome good bad (catch (λ w. o) handler o.0)
unfolding catch
outcome_catch handler (w, throws f) k h = (k f).runs w h
outcome_catch handler (w, gives a) k h = h

pub catch-Fails :
    {A : Type 0} {before : Pred} {bad middle : Failure → Pred} {good : A → Pred} {first : Run A}
    {handler : Failure → Run A}
    → Fails before first good middle
    → ((f : Failure) → Fails (middle f) (handler f) good bad)
    → Fails before (catch first handler) good bad
unfolding catch
catch-Fails {first} {handler} h k = record {
  runs = λ w p. outcome_catch handler (first w) k (h.runs w p);
}

pub pure-Fails :
    {A : Type 0} {before : Pred} {good : A → Pred} {bad : Failure → Pred} (a : A)
    → ((w : World) → before w → good a w)
    → Fails before (pure a) good bad
unfolding pure
pure-Fails a k = record { runs = k }

pub throw-Fails :
    {A : Type 0} {before : Pred} {good : A → Pred} {bad : Failure → Pred} (f : Failure)
    → ((w : World) → before w → bad f w)
    → Fails before (throw {A = A} f) good bad
unfolding throw
throw-Fails f k = record { runs = k }

pub if-Fails :
    {A : Type 0} {before : Pred} {good : A → Pred} {bad : Failure → Pred} {yes_run no_run : Run A}
    (b : Bool)
    → (b ≡ true → Fails before yes_run good bad)
    → (b ≡ false → Fails before no_run good bad)
    → Fails before (if b then yes_run else no_run) good bad
if-Fails true k h = k refl
if-Fails false k h = h refl

outcome_weaken :
    {A : Type 0} {good good' : A → Pred} {bad bad' : Failure → Pred} (o : World × Answer A)
    → ((a : A) (w : World) → good a w → good' a w)
    → ((f : Failure) (w : World) → bad f w → bad' f w)
    → Outcome good bad o
    → Outcome good' bad' o
outcome_weaken (w, gives a) k l h = k a w h
outcome_weaken (w, throws f) k l h = l f w h

pub Fails-weaken :
    {A : Type 0} {before before' : Pred} {good good' : A → Pred} {bad bad' : Failure → Pred}
    {run : Run A}
    → Fails before run good bad
    → ((w : World) → before' w → before w)
    → ((a : A) (w : World) → good a w → good' a w)
    → ((f : Failure) (w : World) → bad f w → bad' f w)
    → Fails before' run good' bad'
Fails-weaken {run} h j k l = record { runs = λ w p. outcome_weaken (run w) k l (h.runs w (j w p)) }

outcome_of_after :
    {A : Type 0} (good : A → Pred) (bad : Pred) (o : World × Answer A)
    → After good bad o
    → Outcome good (λ f. bad) o
outcome_of_after good bad (w, gives a) h = h
outcome_of_after good bad (w, throws f) h = h

after_of_outcome :
    {A : Type 0} (good : A → Pred) (bad : Pred) (o : World × Answer A)
    → Outcome good (λ f. bad) o
    → After good bad o
after_of_outcome good bad (w, gives a) h = h
after_of_outcome good bad (w, throws f) h = h

pub Holds-Fails :
    {A : Type 0} {before bad : Pred} {good : A → Pred} {run : Run A}
    → Holds before run good bad
    → Fails before run good (λ f. bad)
Holds-Fails {bad} {good} {run} h = record {
  runs = λ w p. outcome_of_after good bad (run w) (h.runs w p);
}

pub Fails-Holds :
    {A : Type 0} {before bad : Pred} {good : A → Pred} {run : Run A}
    → Fails before run good (λ f. bad)
    → Holds before run good bad
Fails-Holds {bad} {good} {run} h = record {
  runs = λ w p. after_of_outcome good bad (run w) (h.runs w p);
}

-- A failure of a call from outside is its answer at the number of that call.
abbrev pub Raised : {A : Type 0} → (ℕ → Answer A) → Pred → Failure → Pred
Raised answer p f w =
    p w × ((v : World) × (suc v.calls ≡ w.calls) × p v × (answer v.calls ≡ throws f))

raised :
    {A : Type 0} (p : Pred) (answer : ℕ → Answer A) (w w' : World) (a : Answer A)
    → answer w.calls ≡ a
    → suc w.calls ≡ w'.calls
    → p w
    → p w'
    → Outcome (λ (x : A). p) (Raised answer p) (w', a)
raised p answer w w' (throws f) e same before h = (h, (w, same, before, e))
raised p answer w w' (gives x) e same before h = h

pub ask-Fails :
    {A : Type 0} {o : Outside} {p : Pred} (answer : ℕ → Answer A)
    → IsStable o p
    → Fails p (ask o answer) (λ a. p) (Raised answer p)
unfolding ask
ask-Fails {o} {p} answer stable = record {
  runs = λ w h. raised p answer w _ (answer w.calls) refl refl h (stable.keeps w h);
}
