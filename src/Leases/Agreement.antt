-- ===== src/Leases/Agreement.antt =====
-- The answers of the two lease stores, side by side.
use mathlib.Core.Option
use rai_flow.Prelude.{ℕ, String, ◌≡◌, refl, List, [], ◌∷◌, arith, string_eq, nat_eq, eq_iff}
use rai_flow.Prelude.Dict
use rai_flow.Prelude.Dict.{Dict, get-set}
use rai_flow.Leases.Lease.{Lease, Call, acquires, renews, checks, releases}
use rai_flow.Leases.Sqlite
use rai_flow.Leases.Memory

abbrev token_of : Lease → ℕ
token_of l = l.fencing_token

-- The memory and the table show the same lease and the same last token at every address.
pub record Agree (m : Memory.Memory) (t : Sqlite.Table) : Type 0 where
  pub leases : (a : String) → Dict.get a m.leases ≡ Dict.get a t
  pub tokens : (a : String) → Dict.get a m.tokens ≡ Option.map token_of (Dict.get a t)

Agree-acquire :
    (m : Memory.Memory) (t : Sqlite.Table) (address owner : String) (now expires_at : ℕ)
    → Agree m t
    → Agree
        (Memory.acquire address owner now expires_at m).0
        (Sqlite.acquire address owner now expires_at t).0
      × ((Memory.acquire address owner now expires_at m).1
          ≡ (Sqlite.acquire address owner now expires_at t).1)
unfolding Memory.acquire Sqlite.acquire
Agree-acquire m t address owner now expires_at h = (
  record {
    leases = λ a.
        grind (arith, get-set, h.leases address, h.tokens address, h.leases a, eq_iff address a);
    tokens = λ a.
        grind (arith, get-set, h.leases address, h.tokens address, h.tokens a, eq_iff address a);
  },
  ground (arith, h.leases address, h.tokens address),
)

Agree-renew :
    (m : Memory.Memory) (t : Sqlite.Table) (l : Lease) (now expires_at : ℕ)
    → Agree m t
    → Agree (Memory.renew l now expires_at m).0 (Sqlite.renew l now expires_at t).0
      × ((Memory.renew l now expires_at m).1 ≡ (Sqlite.renew l now expires_at t).1)
unfolding Memory.renew Sqlite.renew
Agree-renew m t l now expires_at h = (
  record {
    leases = λ a.
        grind (arith, get-set, h.leases l.account_address, h.leases a, eq_iff l.account_address a);
    tokens = λ a. grind (
      arith,
      get-set,
      h.leases l.account_address,
      h.tokens l.account_address,
      h.tokens a,
      eq_iff l.account_address a,
    );
  },
  ground (arith, h.leases l.account_address),
)

Agree-check :
    (m : Memory.Memory) (t : Sqlite.Table) (l : Lease) (now : ℕ)
    → Agree m t
    → Memory.is_current l now m ≡ Sqlite.is_current l now t
unfolding Memory.is_current Sqlite.is_current
Agree-check m t l now h = ground (arith, h.leases l.account_address)

Agree-release :
    (m : Memory.Memory) (t : Sqlite.Table) (l : Lease)
    → Agree m t
    → Agree (Memory.release l m) (Sqlite.release l t)
unfolding Memory.release Sqlite.release
Agree-release m t l h = record {
  leases = λ a.
      grind (arith, get-set, h.leases l.account_address, h.leases a, eq_iff l.account_address a);
  tokens = λ a. grind (
    arith,
    get-set,
    h.leases l.account_address,
    h.tokens l.account_address,
    h.tokens a,
    eq_iff l.account_address a,
  );
}

Agree-step :
    (c : Call) (m : Memory.Memory) (t : Sqlite.Table)
    → Agree m t
    → Agree (Memory.step c m).0 (Sqlite.step c t).0 × ((Memory.step c m).1 ≡ (Sqlite.step c t).1)
unfolding Memory.step Sqlite.step
Agree-step (acquires address owner now expires_at) m t h =
    let (state, same) = Agree-acquire m t address owner now expires_at h in (state, cc)
Agree-step (renews l now expires_at) m t h =
    let (state, same) = Agree-renew m t l now expires_at h in (state, cc)
Agree-step (checks l now) m t h = (h, cc (Agree-check m t l now h))
Agree-step (releases l) m t h = (Agree-release m t l h, refl)

Agree-run :
    (cs : List Call) (m : Memory.Memory) (t : Sqlite.Table)
    → Agree m t
    → (Memory.run cs m).1 ≡ (Sqlite.run cs t).1
unfolding Memory.run Sqlite.run
Agree-run [] m t h = refl
Agree-run (c ∷ cs) m t h =
    let (state, same) = Agree-step c m t h in cc (same, Agree-run cs _ _ state)

-- From empty stores, every sequence of calls gets the same replies from the SQLite store and from
-- the in-memory store.
pub run_agree : (cs : List Call) → (Memory.run cs Memory.empty).1 ≡ (Sqlite.run cs []).1
run_agree cs =
    Agree-run cs Memory.empty []
      (record { leases = λ a. refl; tokens = λ a. unfold Dict.get in refl })
