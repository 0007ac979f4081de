-- ===== src/Leases/Memory.antt =====
-- `createInMemoryAccountOperationLeaseStore`: the tokens outlive the leases in a map of their own.
use rai_flow.Prelude.{
  ℕ, ◌+◌, String, Bool, true, false, not, ◌&&◌, ◌||◌, Option, none, some, List, [], ◌∷◌, ltb, leb,
  string_eq, nat_eq, ◌==◌, if◌then◌else◌, or_default,
}
use rai_flow.Prelude.Dict
use rai_flow.Prelude.Dict.{Dict}
use rai_flow.Leases.Lease.{
  Lease, Call, acquires, renews, checks, releases, Reply, granted, answered, done, epoch,
}

pub record Memory : Type 0 where
  pub leases : Dict String Lease
  pub tokens : Dict String ℕ

abbrev pub empty : Memory
empty = record { leases = []; tokens = [] }

abbrev still_held : Option Lease → ℕ → Bool
still_held none now = false
still_held (some l) now = ltb now l.expires_at

unfoldable pub acquire : String → String → ℕ → ℕ → Memory → Memory × Option Lease
acquire address owner now expires_at m =
    if still_held (Dict.get address m.leases) now then (m, none) else (
      record { leases = Dict.set address lease m.leases; tokens = Dict.set address token m.tokens },
      some lease,
    )
  where
    token : ℕ
    token = or_default (Dict.get address m.tokens) 0 + 1

    lease : Lease
    lease = record {
      account_address = address;
      owner_id = owner;
      fencing_token = token;
      expires_at = expires_at;
    }

unfoldable pub renew : Lease → ℕ → ℕ → Memory → Memory × Bool
renew lease now expires_at m = elim (Dict.get lease.account_address m.leases) [
  | none ↦ (m, false)
  | some current ↦
      if not (current.owner_id == lease.owner_id)
        || not (current.fencing_token == lease.fencing_token)
        || leb current.expires_at now
      then (m, false)
      else (
        record m {
          leases =
              Dict.set lease.account_address (record current { expires_at = expires_at }) m.leases;
        },
        true,
      )
]

unfoldable pub is_current : Lease → ℕ → Memory → Bool
is_current lease now m = elim (Dict.get lease.account_address m.leases) [
  | none ↦ false
  | some current ↦
      current.owner_id == lease.owner_id
      && current.fencing_token == lease.fencing_token
      && ltb now current.expires_at
]

unfoldable pub release : Lease → Memory → Memory
release lease m = elim (Dict.get lease.account_address m.leases) [
  | none ↦ m
  | some current ↦
      if current.owner_id == lease.owner_id && current.fencing_token == lease.fencing_token
      then record m {
        leases = Dict.set lease.account_address (record current { expires_at = epoch }) m.leases;
      }
      else m
]

unfoldable pub step : Call → Memory → Memory × Reply
unfolding acquire renew is_current release
step (acquires address owner now expires_at) m =
    let (m', lease) = acquire address owner now expires_at m in (m', granted lease)
step (renews lease now expires_at) m =
    let (m', renewed) = renew lease now expires_at m in (m', answered renewed)
step (checks lease now) m = (m, answered (is_current lease now m))
step (releases lease) m = (release lease m, done)

unfoldable pub run : List Call → Memory → Memory × List Reply
run [] m = (m, [])
run (c ∷ cs) m =
    let (m1, reply) = step c m in let (m2, replies) = run cs m1 in (m2, reply ∷ replies)
