-- ===== src/Locks/Semaphore.antt =====
-- semaphore.go. Metrics and tracing are left out.
pub mod Within
mod Examples
use distsync.Common.{
  ℕ, zero, suc, ◌-◌, ◌≡◌, Bool, true, false, Option, none, some, List, [], ◌∷◌, ◌||◌, Text,
  if◌then◌else◌, ltb,
}
use distsync.Redis.{SortedSets}
use distsync.Lease.Core.{Error, busy, not_acquired, invalid, is_error, Trip, Fate, delivered}
use distsync.Lease.PermitSet.{PermitSet, new_permit_set}
use distsync.Lease.PermitSet.Guarded.{permit_set}
use distsync.Handle.{Handle, new_handle, check_deadline, is_nil}
use distsync.Locks.Loop.{Round, acquire_loop}

pub record Permit : Type 0 where
  pub handle : Handle PermitSet
  pub n : ℕ

-- The fields of `config` that a Semaphore reads, and its own.
pub record Semaphore : Type 0 where
  pub ttl : ℕ
  pub auto_renew : Bool
  pub watchdog : Bool
  pub key : Text
  pub capacity : ℕ

-- What an attempt meets: what others did to the database since the one before, its request, and the
-- release of a late grant.
pub record Attempt (Db : Type 0) : Type 0 where
  pub others : Db → Db
  pub trip : Trip
  pub cleanup : Trip

-- Client.Semaphore; `none` where it panics
unfoldable pub new_semaphore : Text → ℕ → ℕ → Bool → Bool → Option Semaphore
new_semaphore key capacity ttl auto_renew watchdog =
    if ltb capacity 1
    then none
    else some (record {
      ttl = ttl;
      auto_renew = auto_renew;
      watchdog = watchdog;
      key = key;
      capacity = capacity;
    })

module _ {Db : Type 0} (redis : SortedSets Db) where
  -- permit, at a time
  unfoldable pub permit : Semaphore → PermitSet → ℕ → ℕ → Permit
  permit s l n now = record {
    handle =
        if s.auto_renew || s.watchdog
        then check_deadline (permit_set redis) (new_handle l) now
        else new_handle l;
    n = n;
  }

  unfoldable pub attempt : ℕ → Db × PermitSet → Attempt Db → (Db × PermitSet) × Unit {0} × Error
  attempt n (db, l) a =
      let o = distsync.Lease.PermitSet.try_acquire redis l n a.trip a.cleanup (a.others db) in
      ((o.db, o.lease), tt, o.error)

  abbrev pub granted :
      Semaphore
      → ℕ
      → ℕ
      → Option ((Db × PermitSet) × Unit {0} × Error)
      → Option (Db × Option Permit × Error)
  granted s n now none = none
  granted s n now (some ((db, l), _, e)) =
      if is_nil e then some (db, some (permit s l n now), e) else some (db, none, e)

  -- Acquire, with its token, its rounds and the time when a permit starts; `none` while it waits
  unfoldable pub acquire :
      Semaphore
      → Text
      → ℕ
      → List (Round (Attempt Db))
      → ℕ
      → Db
      → Option (Db × Option Permit × Error)
  unfolding attempt
  acquire s token n rounds now db =
      if ltb n 1
      then some (db, none, invalid ∷ [])
      else granted s n now
          (acquire_loop (attempt n) (db, new_permit_set token s.key s.ttl s.capacity) rounds)

  abbrev pub tried :
      Semaphore → ℕ → ℕ → (Db × PermitSet) × Unit {0} × Error → Db × Option Permit × Error
  tried s n now ((db, l), _, e) =
      if is_nil e
      then (db, some (permit s l n now), e)
      else if is_error e busy
      then (db, none, not_acquired ∷ [])
      else (db, none, e)

  -- TryAcquire
  unfoldable pub try_acquire :
      Semaphore → Text → ℕ → Attempt Db → ℕ → Db → Db × Option Permit × Error
  unfolding attempt
  try_acquire s token n a now db =
      if ltb n 1
      then (db, none, invalid ∷ [])
      else tried s n now (attempt n (db, new_permit_set token s.key s.ttl s.capacity) a)

  -- Available, with what becomes of its request; `none` for an error
  unfoldable pub available : Semaphore → Fate → Db → Option ℕ
  available s fate db = elim fate [
    | delivered ↦ some (s.capacity - redis.zcard db s.key)
    | _ ↦ none
  ]
