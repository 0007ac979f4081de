-- ===== src/Leases/Tests.antt =====
-- Two owners of one address.
use rai_flow.Prelude.{ℕ, ◌<◌, true, false, ◌≡◌, refl, none, some, List, [], ◌∷◌, arith, ◌⊎◌, ltb}
use rai_flow.Prelude.Dict
use rai_flow.Leases.Lease.{Lease, Call, acquires, renews, checks, releases}
use rai_flow.Leases.Sqlite
use rai_flow.Leases.Sqlite.{Table, fresh_lease, acquire, renew, is_current, release, run}
use rai_flow.Leases.Memory
use rai_flow.Leases.Agreement.{run_agree}
use rai_flow.Leases.Fencing.{is_held, last_token, acquire_lem, replaced_powerless, one_holder}

abbrev first : Lease
first = fresh_lease "nano_1" "w1" 1 30

abbrev second : Lease
second = fresh_lease "nano_1" "w2" 2 70

abbrev taken_over : Table
taken_over = ("nano_1", second) ∷ []

abbrev calls : List Call
calls =
    acquires "nano_1" "w1" 10 30
    ∷ checks first 20
    ∷ acquires "nano_1" "w2" 40 70
    ∷ renews first 50 80
    ∷ releases first
    ∷ []

run_agree_example : (Memory.run calls Memory.empty).1 ≡ (Sqlite.run calls []).1
run_agree_example = run_agree calls

-- The table after the two owners, and after the first has tried to renew.
abbrev after_first : Table
after_first = (run (acquires "nano_1" "w1" 10 30 ∷ []) []).0

abbrev after_both : Table
after_both = (run (acquires "nano_1" "w2" 40 70 ∷ renews first 50 80 ∷ []) after_first).0

acquire_lem_example :
    ((is_held "nano_1" 80 after_both ≡ true)
      × (acquire "nano_1" "w1" 80 99 after_both ≡ (after_both, none)))
    ⊎ ((is_held "nano_1" 80 after_both ≡ false)
        × ((l : Lease) × ((acquire "nano_1" "w1" 80 99 after_both).1 ≡ some l)
            × (last_token "nano_1" after_first < l.fencing_token)
            × ((later : ℕ)
                → is_current l later (acquire "nano_1" "w1" 80 99 after_both).0 ≡ ltb later 99)))
acquire_lem_example =
    acquire_lem "nano_1" "w1" 80 99 (acquires "nano_1" "w1" 10 30 ∷ [])
      (acquires "nano_1" "w2" 40 70 ∷ renews first 50 80 ∷ []) []

replaced_powerless_example :
    ((now : ℕ) → is_current first now (run calls taken_over).0 ≡ false)
    × ((now expires_at : ℕ)
        → renew first now expires_at (run calls taken_over).0 ≡ ((run calls taken_over).0, false))
    × (release first (run calls taken_over).0 ≡ (run calls taken_over).0)
replaced_powerless_example =
    replaced_powerless first calls taken_over (unfold Dict.get in omega arith)

current_now : is_current second 50 taken_over ≡ true
unfolding is_current Dict.get
current_now = refl

one_holder_example :
    (second.owner_id ≡ second.owner_id) × (second.fencing_token ≡ second.fencing_token)
one_holder_example = one_holder second second 50 taken_over refl current_now current_now
