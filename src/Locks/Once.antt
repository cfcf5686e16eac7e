-- ===== src/Locks/Once.antt =====
-- once.go. A call of `fn` is what it does to the database and what it comes to.
pub mod Laws
mod Examples
use distsync.Common.{
  ℕ, Bool, true, false, Option, none, some, List, [], ◌∷◌, Text, length, if◌then◌else◌,
}
use distsync.Redis.{Strings}
use distsync.Lease.Core.{Error, Trip}
use distsync.Handle.{is_nil}
use distsync.Locks.Loop.{Round}
use distsync.Locks.Mutex.{Mutex, Attempt, lock, unlock_guard}

-- What `fn` comes to: a value with an error, or a panic, which goes on to the caller.
pub data Outcome (T : Type 0) : Type 0 where
  returned : T → Error → Outcome T
  panicked : Outcome T

pub record Fn (Db T : Type 0) : Type 0 where
  pub effect : Db → Db
  pub outcome : Outcome T

module _ {Db T : Type 0} (redis : Strings Db) where
  -- After Lock: `fn`, and the deferred Unlock of the new guard, whose error is dropped.
  abbrev pub guarded : T → Mutex → Fn Db T → Trip → Db × Mutex × Error → Db × Mutex × Outcome T
  guarded empty m fn trip (db, m', e) =
      if is_nil e
      then (let (db', m'', _) = unlock_guard redis m' (length m.guards) trip (fn.effect db) in
          (db', m'', fn.outcome))
      else (db, m', returned empty e)

  abbrev pub after_lock :
      T → Mutex → Fn Db T → Trip → Option (Db × Mutex × Error) → Option (Db × Mutex × Outcome T)
  after_lock empty m fn trip none = none
  after_lock empty m fn trip (some r) = some (guarded empty m fn trip r)

  -- Once, with the rounds of its Lock and the request of its Unlock; `none` while Lock waits
  unfoldable pub once :
      T
      → Mutex
      → Text
      → List (Round (Attempt Db))
      → ℕ
      → Fn Db T
      → Trip
      → Db
      → Option (Db × Mutex × Outcome T)
  once empty m token rounds now fn trip db =
      after_lock empty m fn trip (lock redis m token rounds now db)
