-- ===== src/Locks/RwMutex.antt =====
-- rwmutex.go. The guards that an RWMutex has returned stand in two lists, so that `writeHolder` and
-- `readHolder`, which point to one of them, and the caller's guard are the same object. Lock and
-- RLock, TryLock and TryRLock, Unlock and RUnlock have one body each, over the side of the lock. Metrics
-- and tracing are left out.
pub mod Keys
pub mod Settled
pub mod Places
pub mod Ghost
mod Examples
use distsync.Common.{
  ℕ, zero, suc, ◌≡◌, Bool, true, false, Option, none, some, List, [], ◌∷◌, ◌++◌, ◌||◌, Text,
  if◌then◌else◌, length,
}
use distsync.Config.{Config, Setting, resolved, key, derived}
use distsync.Lease.Core.{Error, busy, lost, not_acquired, is_error, Trip}
use distsync.Lease.Interface.{Methods}
use distsync.Lease.ReadWrite.Scripts.{RwKeys, Server, Store}
use distsync.Lease.ReadWrite.Writer as Writer
use distsync.Lease.ReadWrite.Reader as Reader
use distsync.Handle.{Handle, new_handle, check_deadline, is_nil, release}
use distsync.Locks.Loop.{Round, queue_loop}

pub record Guard (L : Type 0) : Type 0 where
  pub handle : Handle L
  pub fencing : ℕ

-- With the fields of `config` that an RWMutex reads.
pub record RwMutex : Type 0 where
  pub ttl : ℕ
  pub auto_renew : Bool
  pub watchdog : Bool
  pub keys : RwKeys
  pub write_holder : Option ℕ
  pub read_holder : Option ℕ
  pub writers : List (Guard Writer.RwWriter)
  pub readers : List (Guard Reader.RwReader)

-- The keys of a resource by its name
unfoldable pub rw_keys : Text → RwKeys
unfolding key derived
rw_keys name =
    let primary = key name in
    record {
      writer = derived primary (b'w' ∷ b'r' ∷ b'i' ∷ b't' ∷ b'e' ∷ b'r' ∷ []);
      readers = derived primary (b'r' ∷ b'e' ∷ b'a' ∷ b'd' ∷ b'e' ∷ b'r' ∷ b's' ∷ []);
      fencing = derived primary (b'f' ∷ b'e' ∷ b'n' ∷ b'c' ∷ b'i' ∷ b'n' ∷ b'g' ∷ []);
      waiters = derived primary (b'w' ∷ b'a' ∷ b'i' ∷ b't' ∷ b'e' ∷ b'r' ∷ b's' ∷ []);
      waiter_ts =
          derived primary (b'w' ∷ b'a' ∷ b'i' ∷ b't' ∷ b'e' ∷ b'r' ∷ b'-' ∷ b't' ∷ b's' ∷ []);
      seq = derived primary (b's' ∷ b'e' ∷ b'q' ∷ []);
    }

-- Client.RWMutex
unfoldable pub new_rw_mutex : Config → List Setting → Text → RwMutex
unfolding resolved rw_keys
new_rw_mutex defaults opts name =
    let c = resolved defaults opts in
    record {
      ttl = c.ttl;
      auto_renew = c.auto_renew;
      watchdog = c.watchdog;
      keys = rw_keys name;
      write_holder = none;
      read_holder = none;
      writers = [];
      readers = [];
    }

-- What an attempt meets: what others did to the database since the one before, its request, the
-- release of a late grant, what others did until the contender gives up, and the two requests of
-- Dequeue.
pub record Attempt (D : Type 0) : Type 0 where
  pub others : D → D
  pub trip : Trip
  pub cleanup : Trip
  pub then_others : D → D
  pub first : Trip
  pub second : Trip

-- A side of the lock: its lease, and the field that holds its guards.
pub record Side (D L : Type 0) : Type 0 where
  pub methods : Methods D L
  pub acquire : L → Trip → Trip → D → D × L × ℕ × Error
  pub dequeue : L → Trip → Trip → D → D
  pub holder : RwMutex → Option ℕ
  pub guards : RwMutex → List (Guard L)
  pub update : RwMutex → Option ℕ → List (Guard L) → RwMutex

abbrev pub guard_at : {L : Type 0} → List (Guard L) → ℕ → Option (Guard L)
guard_at [] i = none
guard_at (g ∷ gs) zero = some g
guard_at (g ∷ gs) (suc i) = guard_at gs i

abbrev pub set_guard : {L : Type 0} → List (Guard L) → ℕ → Guard L → List (Guard L)
set_guard [] i g' = []
set_guard (g ∷ gs) zero g' = g' ∷ gs
set_guard (g ∷ gs) (suc i) g' = g ∷ set_guard gs i g'

module _ {D L : Type 0} (side : Side D L) where
  open side use {methods}

  -- guard, at a time
  unfoldable pub guard : RwMutex → L → ℕ → ℕ → Guard L
  unfolding check_deadline new_handle
  guard m l fence now = record {
    handle =
        if m.auto_renew || m.watchdog
        then check_deadline methods (new_handle l) now
        else new_handle l;
    fencing = fence;
  }

  -- setWriteHolder, setReadHolder, of a guard that is new
  unfoldable pub set_holder : RwMutex → Guard L → RwMutex
  set_holder m g = side.update m (some (length (side.guards m))) (side.guards m ++ g ∷ [])

  unfoldable pub attempt : D × L → Attempt D → (D × L) × ℕ × Error
  attempt (d, l) a =
      let (d', l', n, e) = side.acquire l a.trip a.cleanup (a.others d) in ((d', l'), n, e)

  -- l.Dequeue(context.WithoutCancel(ctx))
  unfoldable pub leave : D × L → Attempt D → D × L
  leave (d, l) a = (side.dequeue l a.first a.second (a.then_others d), l)

  abbrev pub locked : RwMutex → ℕ → Option ((D × L) × ℕ × Error) → Option (D × RwMutex × Error)
  locked m now none = none
  locked m now (some ((d, l), fence, e)) =
      if is_nil e then some (d, set_holder m (guard m l fence now), e) else some (d, m, e)

  unfoldable pub lock_side :
      RwMutex → L → List (Round (Attempt D)) → ℕ → D → Option (D × RwMutex × Error)
  unfolding attempt leave
  lock_side m l rounds now d = locked m now (queue_loop attempt leave (d, l) rounds)

  abbrev pub tried : RwMutex → ℕ → Attempt D → (D × L) × ℕ × Error → D × RwMutex × Error
  tried m now a ((d, l), fence, e) =
      if is_nil e
      then (d, set_holder m (guard m l fence now), e)
      else if is_error e busy
      then ((leave (d, l) a).0, m, not_acquired ∷ [])
      else (d, m, e)

  unfoldable pub try_side : RwMutex → L → Attempt D → ℕ → D → D × RwMutex × Error
  unfolding attempt
  try_side m l a now d = tried m now a (attempt (d, l) a)

  -- Guard.Unlock of the guard at an index
  unfoldable pub unlock_guard : RwMutex → ℕ → Trip → D → D × RwMutex × Error
  unlock_guard m i trip d = elim (guard_at (side.guards m) i) [
    | none ↦ (d, m, [])
    | some g ↦
        let (d', h, e) = release methods g.handle trip d in
        (
          d',
          side.update m (side.holder m) (set_guard (side.guards m) i (record g { handle = h })),
          e,
        )
  ]

  abbrev pub dropped : D × RwMutex × Error → D × RwMutex × Error
  dropped (d, m, e) =
      if is_nil e || is_error e lost then (d, side.update m none (side.guards m), e) else (d, m, e)

  unfoldable pub unlock_side : RwMutex → Trip → D → D × RwMutex × Error
  unlock_side m trip d = elim (side.holder m) [
    | none ↦ (d, m, [])
    | some i ↦ dropped (unlock_guard m i trip d)
  ]

module _ {S Z Q H : Type 0} (redis : Server S Z Q H) where
  abbrev pub write_side : Side (Store S Z Q H) Writer.RwWriter
  write_side = record {
    methods = Writer.rw_writer redis;
    acquire = Writer.try_acquire redis;
    dequeue = Writer.dequeue redis;
    holder = λ m. m.write_holder;
    guards = λ m. m.writers;
    update = λ m i gs. record m { write_holder = i; writers = gs };
  }

  -- Read guards carry fencing token 0.
  abbrev pub read_side : Side (Store S Z Q H) Reader.RwReader
  read_side = record {
    methods = Reader.rw_reader redis;
    acquire = λ l trip cleanup s.
        let (s', l', e) = Reader.acquire redis l trip cleanup s in (s', l', 0, e);
    dequeue = Reader.dequeue redis;
    holder = λ m. m.read_holder;
    guards = λ m. m.readers;
    update = λ m i gs. record m { read_holder = i; readers = gs };
  }

  -- Lock, with its token, its rounds and the time when a guard starts; `none` while it waits
  unfoldable pub lock :
      RwMutex
      → Text
      → List (Round (Attempt (Store S Z Q H)))
      → ℕ
      → Store S Z Q H
      → Option (Store S Z Q H × RwMutex × Error)
  unfolding Writer.new_rw_writer lock_side
  lock m token rounds now s =
      lock_side write_side m (Writer.new_rw_writer token m.keys m.ttl) rounds now s

  -- TryLock
  unfoldable pub try_lock :
      RwMutex → Text → Attempt (Store S Z Q H) → ℕ → Store S Z Q H → Store S Z Q H × RwMutex × Error
  unfolding Writer.new_rw_writer try_side
  try_lock m token a now s = try_side write_side m (Writer.new_rw_writer token m.keys m.ttl) a now s

  -- RLock
  unfoldable pub r_lock :
      RwMutex
      → Text
      → List (Round (Attempt (Store S Z Q H)))
      → ℕ
      → Store S Z Q H
      → Option (Store S Z Q H × RwMutex × Error)
  unfolding Reader.new_rw_reader lock_side
  r_lock m token rounds now s =
      lock_side read_side m (Reader.new_rw_reader token m.keys m.ttl) rounds now s

  -- TryRLock
  unfoldable pub try_r_lock :
      RwMutex → Text → Attempt (Store S Z Q H) → ℕ → Store S Z Q H → Store S Z Q H × RwMutex × Error
  unfolding Reader.new_rw_reader try_side
  try_r_lock m token a now s =
      try_side read_side m (Reader.new_rw_reader token m.keys m.ttl) a now s

  -- Unlock
  unfoldable pub unlock : RwMutex → Trip → Store S Z Q H → Store S Z Q H × RwMutex × Error
  unfolding unlock_side
  unlock m trip s = unlock_side write_side m trip s

  -- RUnlock
  unfoldable pub r_unlock : RwMutex → Trip → Store S Z Q H → Store S Z Q H × RwMutex × Error
  unfolding unlock_side
  r_unlock m trip s = unlock_side read_side m trip s
