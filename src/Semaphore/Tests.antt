-- ===== src/Semaphore/Tests.antt =====
-- Three callers and one slot.
use rai_flow.Prelude.{◌≡◌, List, [], ◌∷◌, ◌++◌, arith}
use rai_flow.Semaphore.Slots.{empty, Call, acquires, releases, run}
use rai_flow.Semaphore.Fair.{IsFair, arrivals, run-IsFair}

abbrev calls : List Call
calls = acquires 1 ∷ acquires 2 ∷ acquires 3 ∷ releases ∷ releases ∷ []

empty-IsFair : IsFair 1 empty
empty-IsFair = record { bounded = omega arith; busy = λ e. cc }

run-IsFair_example :
    IsFair 1 (run 1 calls empty).0
    × ((run 1 calls empty).1 ++ (run 1 calls empty).0.queue ≡ empty.queue ++ arrivals calls)
run-IsFair_example = run-IsFair 1 calls empty empty-IsFair
