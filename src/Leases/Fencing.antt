-- ===== src/Leases/Fencing.antt =====
-- The holders of a lease and their fencing tokens.
use rai_flow.Prelude.{
  ℕ, ◌+◌, ◌≤◌, ◌<◌, String, Bool, true, false, ◌≡◌, none, some, List, [], ◌∷◌, arith, string_eq,
  nat_eq, eq_iff, Option-cases, inl, inr, ◌⊎◌, ltb, Bool-cases, ==-refl,
}
use rai_flow.Prelude.Dict
use rai_flow.Prelude.Dict.{Dict, get-set, get-set_self}
use rai_flow.Leases.Lease.{Lease, Call, acquires, renews, checks, releases}
use rai_flow.Leases.Sqlite.{Table, fresh_lease, acquire, renew, is_current, release, step, run}

-- The token of the last lease granted at an address, 0 where there was none.
abbrev pub last_token : String → Table → ℕ
last_token a t = elim (Dict.get a t) [ none ↦ 0 | some row ↦ row.fencing_token ]

-- Whether some lease of the address is current.
abbrev pub is_held : String → ℕ → Table → Bool
is_held a now t = elim (Dict.get a t) [ none ↦ false | some row ↦ ltb now row.expires_at ]

-- A grant over the row that is there.
granted_next :
    (address owner : String) (now expires_at : ℕ) (t : Table)
    → ((is_held address now t ≡ true) × (acquire address owner now expires_at t ≡ (t, none)))
      ⊎ ((is_held address now t ≡ false)
          × ((l : Lease) × ((acquire address owner now expires_at t).1 ≡ some l)
              × (last_token address t < l.fencing_token)
              × ((later : ℕ)
                  → is_current l later (acquire address owner now expires_at t).0
                    ≡ ltb later expires_at)))
unfolding acquire is_current
granted_next address owner now expires_at t = elim (Option-cases (Dict.get address t)) [
  | inl missing ↦ inr (
    ground arith,
    (
      fresh_lease address owner 1 expires_at,
      ground arith,
      ground arith,
      λ later.
          ground
            (arith, get-set_self address (fresh_lease address owner 1 expires_at) t, ==-refl owner),
    ),
  )
  | inr (row, found) ↦
      let lease = fresh_lease address owner (row.fencing_token + 1) expires_at in
      elim (Bool-cases (ltb now row.expires_at)) [
        | inl held ↦ inl (ground arith, ground arith)
        | inr free ↦ inr (
          ground arith,
          (
            lease,
            ground arith,
            ground arith,
            λ later. ground (arith, get-set_self address lease t, ==-refl owner),
          ),
        )
      ]
]

-- Tokens never go down.
last_token-step : (c : Call) (a : String) (t : Table) → last_token a t ≤ last_token a (step c t).0
unfolding step
last_token-step (acquires address owner now expires_at) a t =
    grind (arith, get-set, eq_iff address a)
last_token-step (renews l now expires_at) a t = grind (arith, get-set, eq_iff l.account_address a)
last_token-step (checks l now) a t = omega arith
last_token-step (releases l) a t = grind (arith, get-set, eq_iff l.account_address a)

last_token-run :
    (cs : List Call) (a : String) (t : Table) → last_token a t ≤ last_token a (run cs t).0
unfolding run
last_token-run [] a t = omega arith
last_token-run (c ∷ cs) a t = omega (arith, last_token-step c a t, last_token-run cs a (step c t).0)

-- After any calls, `acquire` refuses exactly while a lease of the address has not expired. A lease
-- that it grants has a token above every token that the address has had, before those calls or among
-- them, and is current until it expires.
pub acquire_lem :
    (address owner : String) (now expires_at : ℕ) (before between : List Call) (t : Table)
    → let earlier = (run before t).0 in
      let here = (run between earlier).0 in
      ((is_held address now here ≡ true)
        × (acquire address owner now expires_at here ≡ (here, none)))
      ⊎ ((is_held address now here ≡ false)
          × ((l : Lease) × ((acquire address owner now expires_at here).1 ≡ some l)
              × (last_token address earlier < l.fencing_token)
              × ((later : ℕ)
                  → is_current l later (acquire address owner now expires_at here).0
                    ≡ ltb later expires_at)))
acquire_lem address owner now expires_at before between t =
    let earlier = (run before t).0 in
    let here = (run between earlier).0 in
    elim (granted_next address owner now expires_at here) [
      | inl refused ↦ inl refused
      | inr (free, (l, made, above, current)) ↦
          inr (free, (l, made, omega (arith, last_token-run between address earlier), current))
    ]

powerless :
    (l : Lease) (t : Table)
    → l.fencing_token < last_token l.account_address t
    → ((now : ℕ) → is_current l now t ≡ false)
      × ((now expires_at : ℕ) → renew l now expires_at t ≡ (t, false))
      × (release l t ≡ t)
unfolding is_current renew release
powerless l t h = (λ now. ground arith, λ now expires_at. ground arith, ground arith)

-- Once a lease has been replaced by one with a higher token, then after any further calls it is not
-- current, cannot be renewed, and its release changes nothing.
pub replaced_powerless :
    (l : Lease) (cs : List Call) (t : Table)
    → l.fencing_token < last_token l.account_address t
    → ((now : ℕ) → is_current l now (run cs t).0 ≡ false)
      × ((now expires_at : ℕ) → renew l now expires_at (run cs t).0 ≡ ((run cs t).0, false))
      × (release l (run cs t).0 ≡ (run cs t).0)
replaced_powerless l cs t h =
    powerless l (run cs t).0 (omega (arith, last_token-run cs l.account_address t))

-- Two leases of one address that are current at one time have the same owner and the same token.
pub one_holder :
    (k l : Lease) (now : ℕ) (t : Table)
    → k.account_address ≡ l.account_address
    → is_current k now t ≡ true
    → is_current l now t ≡ true
    → (k.owner_id ≡ l.owner_id) × (k.fencing_token ≡ l.fencing_token)
unfolding is_current
one_holder k l now t same hk hl = elim (Option-cases (Dict.get l.account_address t)) [
  | inl missing ↦ absurd (ground arith)
  | inr (row, found) ↦
      (ground (arith, eq_iff row.owner_id k.owner_id, eq_iff row.owner_id l.owner_id), ground arith)
]
