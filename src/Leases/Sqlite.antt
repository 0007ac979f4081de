-- ===== src/Leases/Sqlite.antt =====
-- `createSqliteAccountOperationLeaseStore`. The table has one row for each address, its primary key.
use rai_flow.Prelude.{
  ℕ, ◌+◌, String, Bool, true, false, ◌&&◌, Option, none, some, List, [], ◌∷◌, ltb, leb, string_eq,
  nat_eq, if◌then◌else◌,
}
use rai_flow.Prelude.Dict
use rai_flow.Prelude.Dict.{Dict}
use rai_flow.Leases.Lease.{
  Lease, Call, acquires, renews, checks, releases, Reply, granted, answered, done, same_holder,
  epoch,
}

abbrev pub Table : Type 0
Table = Dict String Lease

abbrev pub fresh_lease : String → String → ℕ → ℕ → Lease
fresh_lease address owner token expires_at = record {
  account_address = address;
  owner_id = owner;
  fencing_token = token;
  expires_at = expires_at;
}

-- INSERT … ON CONFLICT DO UPDATE … WHERE expires_at <= now, then SELECT the row.
unfoldable pub acquire : String → String → ℕ → ℕ → Table → Table × Option Lease
acquire address owner now expires_at t = elim (Dict.get address t) [
  | none ↦
      let lease : Lease = fresh_lease address owner 1 expires_at in
      (Dict.set address lease t, some lease)
  | some row ↦
      let lease : Lease = fresh_lease address owner (row.fencing_token + 1) expires_at in
      if leb row.expires_at now then (Dict.set address lease t, some lease) else (t, none)
]

-- UPDATE … SET expires_at = ? WHERE … AND expires_at > now
unfoldable pub renew : Lease → ℕ → ℕ → Table → Table × Bool
renew lease now expires_at t = elim (Dict.get lease.account_address t) [
  | none ↦ (t, false)
  | some row ↦
      if same_holder row lease && ltb now row.expires_at
      then (Dict.set lease.account_address (record row { expires_at = expires_at }) t, true)
      else (t, false)
]

unfoldable pub is_current : Lease → ℕ → Table → Bool
is_current lease now t = elim (Dict.get lease.account_address t) [
  | none ↦ false
  | some row ↦ same_holder row lease && ltb now row.expires_at
]

unfoldable pub release : Lease → Table → Table
release lease t = elim (Dict.get lease.account_address t) [
  | none ↦ t
  | some row ↦
      if same_holder row lease
      then Dict.set lease.account_address (record row { expires_at = epoch }) t
      else t
]

unfoldable pub step : Call → Table → Table × Reply
unfolding acquire renew is_current release
step (acquires address owner now expires_at) t =
    let (t', lease) = acquire address owner now expires_at t in (t', granted lease)
step (renews lease now expires_at) t =
    let (t', renewed) = renew lease now expires_at t in (t', answered renewed)
step (checks lease now) t = (t, answered (is_current lease now t))
step (releases lease) t = (release lease t, done)

unfoldable pub run : List Call → Table → Table × List Reply
run [] t = (t, [])
run (c ∷ cs) t =
    let (t1, reply) = step c t in let (t2, replies) = run cs t1 in (t2, reply ∷ replies)
