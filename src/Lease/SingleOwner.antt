-- ===== src/Lease/SingleOwner.antt =====
-- internal/lease/single.go, with the scripts internal/lua/single_*.lua that it runs.
pub mod Scripts
pub mod Laws
pub mod System
pub mod Invariant
pub mod Exclusion
pub mod Methods
pub mod Grants
pub mod Guarded
mod Examples
use distsync.Common.{
  ℕ, Bool, true, false, Option, none, some, [], ◌∷◌, ite, Text, ltb, leb, ◌==◌, if◌then◌else◌,
  Reply_discrete,
}
use distsync.Redis.{Strings}
use distsync.Lease.Core.{
  Error, busy, lost, transport, Trip, delivered, Reply, int, nil, failed, transmit, request_expiry,
  milliseconds,
}
use Scripts.{single_acquire, single_renew, single_release}

pub record SingleOwner : Type 0 where
  pub id : Text
  pub key : Text
  pub fkey : Text
  pub ttl : ℕ
  pub fencing : Bool
  pub expires_at : ℕ

-- NewSingleOwner, with the owner token that `Token` draws
unfoldable pub new_single_owner : Text → Text → Text → ℕ → Bool → SingleOwner
new_single_owner token key fencing_key ttl fencing = record {
  id = token;
  key = key;
  fkey = fencing_key;
  ttl = ttl;
  fencing = fencing;
  expires_at = 0;
}

-- What a method leaves: the database, the lease, a value and an error.
pub record Outcome (Db : Type 0) (A : Type 0) : Type 0 where
  pub db : Db
  pub lease : SingleOwner
  pub value : A
  pub error : Error

unfoldable pub fence_flag : SingleOwner → Text
fence_flag l = if l.fencing then b'1' ∷ [] else b'0' ∷ []

-- The locked part of `TryAcquire`, with the time that it reads; `none` for a late grant.
unfoldable pub accept : SingleOwner → ℕ → ℕ → Option SingleOwner
accept l deadline now = if leb deadline now then none else some (record l { expires_at = deadline })

-- The locked part of `Renew`, with the time that it reads.
unfoldable pub extend : SingleOwner → ℕ → ℕ → SingleOwner × Error
extend l deadline now =
    if leb l.expires_at now
    then (l, lost ∷ [])
    else if leb deadline now
    then (l, lost ∷ [])
    else if ltb l.expires_at deadline
    then (record l { expires_at = deadline }, [])
    else (l, [])

module _ {Db : Type 0} (redis : Strings Db) where
  pub released : SingleOwner → Db × Reply → Outcome Db Unit
  released l (db, failed) = record { db = db; lease = l; value = tt; error = transport ∷ [] }
  released l (db, nil) = record { db = db; lease = l; value = tt; error = transport ∷ [] }
  released l (db, int n) =
      if n == 1
      then record { db = db; lease = record l { expires_at = 0 }; value = tt; error = [] }
      else record { db = db; lease = l; value = tt; error = lost ∷ [] }

  -- Release
  unfoldable pub release : SingleOwner → Trip → Db → Outcome Db Unit
  unfolding released
  release l trip db = released l (transmit trip (λ d now. single_release redis d now l.key l.id) db)

  -- discardLateGrant: `errors.Join(ErrLost, l.Release(ctx))`
  unfoldable pub discard_late_grant : SingleOwner → Trip → Db → Outcome Db ℕ
  unfolding release
  discard_late_grant l cleanup db =
      let r = release l cleanup db in
      record { db = r.db; lease = r.lease; value = 0; error = lost ∷ r.error }

  pub settled : SingleOwner → Trip → Db → ℕ → Option SingleOwner → Outcome Db ℕ
  unfolding discard_late_grant
  settled l cleanup db n none = discard_late_grant l cleanup db
  settled l cleanup db n (some l') = record { db = db; lease = l'; value = n; error = [] }

  pub acquired : SingleOwner → Trip → Trip → Db × Reply → Outcome Db ℕ
  unfolding settled accept
  acquired l trip cleanup (db, failed) = record {
    db = db;
    lease = l;
    value = 0;
    error = transport ∷ [];
  }
  acquired l trip cleanup (db, nil) = record { db = db; lease = l; value = 0; error = busy ∷ [] }
  acquired l trip cleanup (db, int n) =
      settled l cleanup db n (accept l (request_expiry trip.sent l.ttl) trip.back)

  -- TryAcquire; `cleanup` is the release that a late grant makes
  unfoldable pub try_acquire : SingleOwner → Trip → Trip → Db → Outcome Db ℕ
  unfolding acquired
  try_acquire l trip cleanup db = acquired l trip cleanup (
      transmit trip
        (λ d now. single_acquire redis d now l.key l.fkey l.id (milliseconds l.ttl) (fence_flag l))
        db)

  pub renewed : SingleOwner → Trip → Db × Reply → Outcome Db Unit
  renewed l trip (db, failed) = record { db = db; lease = l; value = tt; error = transport ∷ [] }
  renewed l trip (db, nil) = record { db = db; lease = l; value = tt; error = transport ∷ [] }
  renewed l trip (db, int n) =
      if n == 1
      then (let (l', e) = extend l (request_expiry trip.sent l.ttl) trip.back in
          record { db = db; lease = l'; value = tt; error = e })
      else record { db = db; lease = l; value = tt; error = lost ∷ [] }

  -- Renew
  unfoldable pub renew : SingleOwner → Trip → Db → Outcome Db Unit
  unfolding renewed
  renew l trip db =
      renewed l trip
        (transmit trip (λ d now. single_renew redis d now l.key l.id (milliseconds l.ttl)) db)

  -- Held: a plain GET. `none` stands for its transport error.
  unfoldable pub held : SingleOwner → Trip → Db → Option Bool
  held l trip db = elim trip.fate [
    | delivered ↦
        some (ite (Reply_discrete (redis.get db trip.served l.key) (some l.id)) true false)
    | _ ↦ none
  ]
