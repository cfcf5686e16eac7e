-- ===== src/Locks/Leader.antt =====
-- leader.go. The callback is known by what happens to its handle while it runs and by the error that
-- it returns; `none` stands for a nil callback. Metrics and tracing are left out.
pub mod Errors
mod Examples
use distsync.Common.{
  ℕ, Bool, true, false, Option, none, some, List, [], ◌∷◌, ◌++◌, ◌||◌, Text, if◌then◌else◌,
}
use distsync.Redis.{Strings}
use distsync.Lease.Core.{Error, busy, not_acquired, leadership_lost, invalid, is_error, Trip}
use distsync.Lease.SingleOwner.{SingleOwner, new_single_owner}
use distsync.Lease.SingleOwner.Guarded.{single_owner}
use distsync.Config.{Config, Setting, resolved, key, derived}
use distsync.Handle.{Handle, new_handle, check_deadline, is_nil, stop, release}
use distsync.Handle.Lifecycle.{Event, live_through}
use distsync.Locks.Loop.{Round, acquire_loop}
use distsync.Locks.Mutex.{Attempt, attempt}

pub record Leader : Type 0 where
  pub ttl : ℕ
  pub auto_renew : Bool
  pub watchdog : Bool
  pub fencing : Bool
  pub key : Text
  pub fkey : Text

-- Client.Leader
unfoldable pub new_leader : Config → List Setting → Text → Leader
unfolding resolved key derived
new_leader defaults opts name =
    let c = resolved defaults opts in
    record {
      ttl = c.ttl;
      auto_renew = c.auto_renew;
      watchdog = c.watchdog;
      fencing = c.fencing;
      key = key name;
      fkey = derived (key name) (b'f' ∷ b'e' ∷ b'n' ∷ b'c' ∷ b'i' ∷ b'n' ∷ b'g' ∷ []);
    }

pub record Callback : Type 0 where
  pub events : List Event  -- what happens to the handle while it runs
  pub error : Error

-- FencingToken, while `active` is a handle with its fence
unfoldable pub fencing_token : Option (Handle SingleOwner × ℕ) → ℕ
fencing_token none = 0
fencing_token (some (h, fence)) = if h.is_lost then 0 else fence

-- IsLeader
unfoldable pub is_leader : Option (Handle SingleOwner × ℕ) → Bool
is_leader none = false
is_leader (some (h, fence)) = if h.is_lost then false else true

unfoldable pub new_leader_lease : Leader → Text → SingleOwner
new_leader_lease l token = new_single_owner token l.key l.fkey l.ttl l.fencing

module _ {Db : Type 0} (redis : Strings Db) where
  -- The handle as `runHeld` starts it, at a time.
  unfoldable pub leading : Leader → SingleOwner → ℕ → Handle SingleOwner
  leading l le now =
      if l.auto_renew || l.watchdog
      then check_deadline (single_owner redis) (new_handle le) now
      else new_handle le

  -- The handle when the callback returns.
  abbrev pub led : Leader → SingleOwner → ℕ → Callback → Db → Db × Handle SingleOwner
  led l le now fn db = live_through (single_owner redis) (db, leading l le now) fn.events

  -- The deferred release, with the handle stopped first.
  abbrev pub handed_over : Db × Handle SingleOwner → Trip → Db × Handle SingleOwner × Error
  handed_over (db, h) cleanup = release (single_owner redis) (stop h) cleanup db

  -- runHeld
  unfoldable pub run_held : Leader → SingleOwner → ℕ → Callback → Trip → Db → Db × Error
  run_held l le now fn cleanup db =
      let (db', h) = led l le now fn db in
      let error = if h.is_lost then fn.error ++ leadership_lost ∷ [] else fn.error in
      let (db'', h', e) = handed_over (db', h) cleanup in (db'', error ++ e)

  abbrev pub ran :
      Leader → ℕ → Callback → Trip → Option ((Db × SingleOwner) × ℕ × Error) → Option (Db × Error)
  ran l now fn cleanup none = none
  ran l now fn cleanup (some ((db, le), fence, e)) =
      if is_nil e then some (run_held l le now fn cleanup db) else some (db, e)

  -- Run, with its token, its rounds, the time when it starts to lead and the request of its release;
  -- `none` while it waits
  unfoldable pub run :
      Leader
      → Text
      → List (Round (Attempt Db))
      → ℕ
      → Option Callback
      → Trip
      → Db
      → Option (Db × Error)
  run l token rounds now none cleanup db = some (db, invalid ∷ [])
  run l token rounds now (some fn) cleanup db =
      ran l now fn cleanup (acquire_loop (attempt redis) (db, new_leader_lease l token) rounds)

  abbrev pub tried_run : Leader → ℕ → Callback → Trip → (Db × SingleOwner) × ℕ × Error → Db × Error
  tried_run l now fn cleanup ((db, le), fence, e) =
      if is_nil e
      then run_held l le now fn cleanup db
      else if is_error e busy
      then (db, not_acquired ∷ [])
      else (db, e)

  -- TryRun
  unfoldable pub try_run : Leader → Text → Attempt Db → ℕ → Option Callback → Trip → Db → Db × Error
  try_run l token a now none cleanup db = (db, invalid ∷ [])
  try_run l token a now (some fn) cleanup db =
      tried_run l now fn cleanup (attempt redis (db, new_leader_lease l token) a)
