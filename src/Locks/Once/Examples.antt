-- ===== src/Locks/Once/Examples.antt =====
-- A run of Once over a database in memory, and the theorem at it.
use distsync.Common.{
  ℕ, ◌+◌, ◌*◌, ◌≡◌, refl, true, false, none, some, Option, List, [], ◌∷◌, Text, Text_discrete,
  Reply_discrete, ℕ_discrete,
}
use distsync.Common.Decimal.{decimal, digits, to_number}
use distsync.Redis.{millisecond}
use distsync.Redis.Memory.{Memory, memory_strings, get, set_px, incr, put}
use distsync.Lease.Core.{
  Error, Trip, delivered, request_expiry, milliseconds, transmit, arrive, is_error,
}
use distsync.Lease.SingleOwner.{accept, fence_flag, try_acquire}
use distsync.Lease.SingleOwner.Scripts.{single_acquire}
use distsync.Locks.Loop.{Round, acquire_loop}
use distsync.Locks.Mutex.{Mutex, Attempt, new_lease, attempt, lock}
use distsync.Locks.Once.{panicked, Fn, guarded, once}
use distsync.Locks.Once.Laws.{IsGuarded, once-IsGuarded}

abbrev mutex : Mutex
mutex = record {
  ttl = 10_000 * millisecond;
  auto_renew = false;
  watchdog = false;
  key = b'{' ∷ b'a' ∷ b'}' ∷ [];
  fkey = b'f' ∷ [];
  holder = none;
  guards = [];
}

abbrev token : Text
token = b'7' ∷ []

abbrev empty_memory : Memory
empty_memory = record { strings = λ _. none; zsets = λ _. record { members = []; distinct = tt } }

abbrev trip_at : ℕ → Trip
trip_at t = record { sent = t; served = t; back = t + millisecond; fate = delivered }

abbrev rounds : List (Round (Attempt Memory))
rounds =
    record {
      env = record { others = λ db. db; trip = trip_at (5 * millisecond); cleanup = trip_at 0 };
      over = false;
      woken = true;
    }
    ∷ []

-- It panics.
abbrev fn : Fn Memory ℕ
fn = record { effect = λ db. db; outcome = panicked }

abbrev had : Option (Memory × Mutex × Error)
had = lock memory_strings mutex token rounds (7 * millisecond) empty_memory

abbrev unlocking : Trip
unlocking = trip_at (20 * millisecond)

abbrev fallback : Memory × Mutex × Error
fallback = (empty_memory, mutex, [])

abbrev taken : Memory × Mutex × Error
taken = elim had [ none ↦ fallback | some r ↦ r ]

ran :
    once memory_strings 0 mutex token rounds (7 * millisecond) fn unlocking empty_memory
    ≡ some (guarded memory_strings 0 mutex fn unlocking taken)
unfolding once lock attempt acquire_loop new_lease try_acquire transmit single_acquire is_error
    arrive get set_px put incr request_expiry milliseconds fence_flag accept decimal digits
    to_number Text_discrete Reply_discrete ℕ_discrete
ran = refl

once-IsGuarded_example :
    (r : Memory × Mutex × Error) × (had ≡ some r)
    × IsGuarded memory_strings 0 mutex fn unlocking r
        (guarded memory_strings 0 mutex fn unlocking taken)
once-IsGuarded_example =
    once-IsGuarded memory_strings 0 mutex token rounds (7 * millisecond) fn unlocking empty_memory
      (guarded memory_strings 0 mutex fn unlocking taken) ran
