-- ===== src/Locks/Mutex.antt =====
-- mutex.go. The guards that a Mutex has returned stand in a list, so that `holder`, which points to
-- one of them, and the caller's guard are the same object. Metrics and tracing are left out.
pub mod Laws
mod Examples
use distsync.Common.{
  ℕ, zero, suc, ◌+◌, ◌≡◌, Bool, true, false, Option, none, some, List, [], ◌∷◌, ◌++◌, ◌||◌, Text,
  if◌then◌else◌, length, ◌==◌,
}
use distsync.Redis.{Strings}
use distsync.Lease.Core.{Error, busy, lost, not_acquired, is_error, Trip}
use distsync.Lease.SingleOwner.{SingleOwner, new_single_owner, try_acquire}
use distsync.Lease.SingleOwner.Guarded.{single_owner}
use distsync.Config.{Config, Setting, resolved, key, derived}
use distsync.Handle.{Handle, new_handle, check_deadline, is_nil, release}
use distsync.Locks.Loop.{Round, acquire_loop}

pub record Guard : Type 0 where
  pub handle : Handle SingleOwner
  pub fencing : ℕ

-- The fields of `config` that a Mutex reads.
pub record Mutex : Type 0 where
  pub ttl : ℕ
  pub auto_renew : Bool
  pub watchdog : Bool
  pub key : Text
  pub fkey : Text
  pub holder : Option ℕ
  pub guards : List Guard

-- Client.Mutex
unfoldable pub new_mutex : Config → List Setting → Text → Mutex
unfolding resolved key derived
new_mutex defaults opts name =
    let c = resolved defaults opts in
    record {
      ttl = c.ttl;
      auto_renew = c.auto_renew;
      watchdog = c.watchdog;
      key = key name;
      fkey = derived (key name) (b'f' ∷ b'e' ∷ b'n' ∷ b'c' ∷ b'i' ∷ b'n' ∷ b'g' ∷ []);
      holder = none;
      guards = [];
    }

-- What an attempt meets: what others did to the database since the one before, its request, and the
-- release of a late grant.
pub record Attempt (Db : Type 0) : Type 0 where
  pub others : Db → Db
  pub trip : Trip
  pub cleanup : Trip

-- newLease, with the token that it draws
unfoldable pub new_lease : Mutex → Text → SingleOwner
unfolding new_single_owner
new_lease m token = new_single_owner token m.key m.fkey m.ttl true

abbrev pub guard_at : List Guard → ℕ → Option Guard
guard_at [] i = none
guard_at (g ∷ gs) zero = some g
guard_at (g ∷ gs) (suc i) = guard_at gs i

abbrev pub set_guard : List Guard → ℕ → Guard → List Guard
set_guard [] i g' = []
set_guard (g ∷ gs) zero g' = g' ∷ gs
set_guard (g ∷ gs) (suc i) g' = g ∷ set_guard gs i g'

module _ {Db : Type 0} (redis : Strings Db) where
  -- guard, at a time
  unfoldable pub guard : Mutex → SingleOwner → ℕ → ℕ → Guard
  unfolding check_deadline new_handle
  guard m l fence now = record {
    handle =
        if m.auto_renew || m.watchdog
        then check_deadline (single_owner redis) (new_handle l) now
        else new_handle l;
    fencing = fence;
  }

  -- setHolder, of a guard that is new
  unfoldable pub set_holder : Mutex → Guard → Mutex
  set_holder m g = record m { holder = some (length m.guards); guards = m.guards ++ g ∷ [] }

  unfoldable pub attempt : Db × SingleOwner → Attempt Db → (Db × SingleOwner) × ℕ × Error
  attempt (db, l) a =
      let o = try_acquire redis l a.trip a.cleanup (a.others db) in
      ((o.db, o.lease), o.value, o.error)

  abbrev pub locked :
      Mutex → ℕ → Option ((Db × SingleOwner) × ℕ × Error) → Option (Db × Mutex × Error)
  locked m now none = none
  locked m now (some ((db, l), fence, e)) =
      if is_nil e then some (db, set_holder m (guard m l fence now), e) else some (db, m, e)

  -- Lock, with its token, its rounds and the time when a guard starts; `none` while it waits
  unfoldable pub lock :
      Mutex → Text → List (Round (Attempt Db)) → ℕ → Db → Option (Db × Mutex × Error)
  unfolding new_lease attempt
  lock m token rounds now db = locked m now (acquire_loop attempt (db, new_lease m token) rounds)

  abbrev pub tried : Mutex → ℕ → (Db × SingleOwner) × ℕ × Error → Db × Mutex × Error
  tried m now ((db, l), fence, e) =
      if is_nil e
      then (db, set_holder m (guard m l fence now), e)
      else if is_error e busy
      then (db, m, not_acquired ∷ [])
      else (db, m, e)

  -- TryLock
  unfoldable pub try_lock : Mutex → Text → Attempt Db → ℕ → Db → Db × Mutex × Error
  unfolding new_lease attempt
  try_lock m token a now db = tried m now (attempt (db, new_lease m token) a)

  -- Guard.Unlock of the guard at an index
  unfoldable pub unlock_guard : Mutex → ℕ → Trip → Db → Db × Mutex × Error
  unlock_guard m i trip db = elim (guard_at m.guards i) [
    | none ↦ (db, m, [])
    | some g ↦
        let (db', h, e) = release (single_owner redis) g.handle trip db in
        (db', record m { guards = set_guard m.guards i (record g { handle = h }) }, e)
  ]

  abbrev pub dropped : Db × Mutex × Error → Db × Mutex × Error
  dropped (db, m, e) =
      if is_nil e || is_error e lost then (db, record m { holder = none }, e) else (db, m, e)

  -- Unlock
  unfoldable pub unlock : Mutex → Trip → Db → Db × Mutex × Error
  unlock m trip db = elim m.holder [
    | none ↦ (db, m, [])
    | some i ↦ dropped (unlock_guard m i trip db)
  ]
