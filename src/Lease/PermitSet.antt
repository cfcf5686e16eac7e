-- ===== src/Lease/PermitSet.antt =====
-- internal/lease/permit.go, with the scripts internal/lua/sem_*.lua that it runs.
pub mod Scripts
pub mod Laws
pub mod Capacity
pub mod Deadline
pub mod Valid
pub mod Members
pub mod Guarded
pub mod Within
mod Examples
use distsync.Common.{
  ℕ, zero, suc, ◌+◌, Bool, true, false, Option, none, some, List, [], ◌∷◌, ◌++◌, Text, ltb, leb,
  ◌==◌, if◌then◌else◌, length,
}
use distsync.Common.Decimal.{decimal}
use distsync.Redis.{SortedSets}
use distsync.Lease.Core.{
  Error, busy, lost, transport, Trip, Fate, delivered, reply_lost, request_lost, Reply, int, nil,
  failed, transmit, request_expiry, milliseconds,
}
use Scripts.{sem_acquire, sem_renew, sem_release, is_live}

pub record PermitSet : Type 0 where
  pub id : Text
  pub key : Text
  pub ttl : ℕ
  pub capacity : ℕ
  pub tokens : List Text
  pub acquired : Bool
  pub expires_at : ℕ

-- NewPermitSet, with the token that `Token` draws
unfoldable pub new_permit_set : Text → Text → ℕ → ℕ → PermitSet
new_permit_set token key ttl capacity = record {
  id = token;
  key = key;
  ttl = ttl;
  capacity = capacity;
  tokens = [];
  acquired = false;
  expires_at = 0;
}

pub record Outcome (Db : Type 0) : Type 0 where
  pub db : Db
  pub lease : PermitSet
  pub error : Error

-- `p.id + "#" + strconv.Itoa(i)`
unfoldable pub permit_token : Text → ℕ → Text
permit_token id i = id ++ b'#' ∷ decimal i

-- The tokens from `i` on, `n` of them.
unfoldable pub tokens_from : Text → ℕ → ℕ → List Text
unfolding permit_token
tokens_from id i zero = []
tokens_from id i (suc n) = permit_token id i ∷ tokens_from id (suc i) n

-- The locked end of `Renew`, with the time that it reads.
unfoldable pub extend : PermitSet → ℕ → ℕ → PermitSet × Error
extend p deadline now =
    if leb p.expires_at now
    then (p, lost ∷ [])
    else if leb deadline now
    then (p, lost ∷ [])
    else if ltb p.expires_at deadline
    then (record p { expires_at = deadline }, [])
    else (p, [])

module _ {Db : Type 0} (redis : SortedSets Db) where
  pub released : PermitSet → Db × Reply → Outcome Db
  released p (db, failed) = record { db = db; lease = p; error = transport ∷ [] }
  released p (db, nil) = record { db = db; lease = p; error = transport ∷ [] }
  released p (db, int removed) = record {
    db = db;
    lease = record p { tokens = []; acquired = false; expires_at = 0 };
    error = if removed == length p.tokens then [] else lost ∷ [];
  }

  -- Release
  unfoldable pub release : PermitSet → Trip → Db → Outcome Db
  unfolding released
  release p trip db = elim p.tokens [
    | [] ↦ record { db = db; lease = p; error = lost ∷ [] }
    | t ∷ ts ↦ released p (transmit trip (λ d _. sem_release redis d p.key (t ∷ ts)) db)
  ]

  -- discardLateGrant
  unfoldable pub discard_late_grant : PermitSet → Trip → Db → Outcome Db
  unfolding release
  discard_late_grant p cleanup db =
      let r = release p cleanup db in record { db = r.db; lease = r.lease; error = lost ∷ r.error }

  pub acquired : PermitSet → List Text → Trip → Trip → Db × Reply → Outcome Db
  unfolding discard_late_grant
  acquired p tokens trip cleanup (db, failed) = record {
    db = db;
    lease = p;
    error = transport ∷ [];
  }
  acquired p tokens trip cleanup (db, nil) = record { db = db; lease = p; error = busy ∷ [] }
  acquired p tokens trip cleanup (db, int used) =
      let p' = record p { tokens = tokens } in
      let deadline = request_expiry trip.sent p.ttl in
      if leb deadline trip.back then discard_late_grant p' cleanup db else record {
        db = db;
        lease = record p' { acquired = true; expires_at = deadline };
        error = [];
      }

  -- TryAcquire of `n` permits; fewer than one is no request
  unfoldable pub try_acquire : PermitSet → ℕ → Trip → Trip → Db → Outcome Db
  unfolding acquired tokens_from
  try_acquire p zero trip cleanup db = record { db = db; lease = p; error = [] }
  try_acquire p (suc n) trip cleanup db =
      let tokens = tokens_from p.id 0 (suc n) in
      acquired p tokens trip cleanup (
        transmit trip
          (λ d _.
            sem_acquire redis d p.key (milliseconds trip.sent) (milliseconds p.ttl) p.capacity
              tokens)
          db)

  pub renewed : PermitSet → Trip → Db × Reply → Outcome Db
  unfolding extend
  renewed p trip (db, failed) = record { db = db; lease = p; error = transport ∷ [] }
  renewed p trip (db, nil) = record { db = db; lease = p; error = transport ∷ [] }
  renewed p trip (db, int n) =
      if n == 1
      then (let (p', e) = extend p (request_expiry trip.sent p.ttl) trip.back in
          record { db = db; lease = p'; error = e })
      else record { db = db; lease = p; error = lost ∷ [] }

  -- Renew
  unfoldable pub renew : PermitSet → Trip → Db → Outcome Db
  unfolding renewed
  renew p trip db = elim p.tokens [
    | [] ↦ record { db = db; lease = p; error = lost ∷ [] }
    | t ∷ ts ↦ renewed p trip (
        transmit trip
          (λ d _. sem_renew redis d p.key (milliseconds trip.sent) (milliseconds p.ttl) (t ∷ ts))
          db)
  ]

  -- The loop of `Held`, one request for each token with what became of it.
  held_loop : Db → Text → ℕ → List Text → List Fate → Option Bool
  held_loop db key now [] fates = some true
  held_loop db key now (t ∷ ts) [] = none
  held_loop db key now (t ∷ ts) (f ∷ fs) =
      let rest = held_loop db key now ts fs in
      elim f [
        | delivered ↦ if is_live redis now (redis.zscore db key t) then rest else some false
        | _ ↦ none
      ]

  -- Held at a time, against one state of the database; `none` for a transport error
  unfoldable pub held : PermitSet → ℕ → List Fate → Db → Option Bool
  unfolding held_loop
  held p now fates db = elim p.tokens [
    | [] ↦ some false
    | t ∷ ts ↦ held_loop db p.key (milliseconds now) (t ∷ ts) fates
  ]
