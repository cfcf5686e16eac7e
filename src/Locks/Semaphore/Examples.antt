-- ===== src/Locks/Semaphore/Examples.antt =====
-- A run of a Semaphore over a database in memory.
use distsync.Common.{
  ℕ, ◌+◌, ◌*◌, ◌≤◌, ◌≡◌, refl, true, false, Option, none, some, List, [], ◌∷◌, Text_discrete,
  ℕ_discrete, arith,
}
use distsync.Common.Decimal.{decimal, digits}
use distsync.Redis.{millisecond}
use distsync.Redis.Memory.{Memory, score, insert, purge, put}
use distsync.Redis.Memory.SetProofs.{
  memory_sets, memory_set_laws, zscore, zcard, zadd, zremrangebyscore, with_set,
}
use distsync.Lease.Core.{
  Trip, delivered, Error, request_expiry, milliseconds, is_error, transmit, arrive,
}
use distsync.Lease.PermitSet.{PermitSet, tokens_from, new_permit_set, permit_token}
use distsync.Lease.PermitSet.Scripts.{sem_acquire, count_owned, add_all}
use distsync.Locks.Loop.{Round, acquire_loop}
use distsync.Locks.Semaphore.{Semaphore, Permit, Attempt, attempt, acquire, try_acquire, available}
use distsync.Locks.Semaphore.Within.{acquire_within}

abbrev semaphore : Semaphore
semaphore = record {
  ttl = 10_000 * millisecond;
  auto_renew = true;
  watchdog = false;
  key = b's' ∷ [];
  capacity = 3;
}

abbrev empty_memory : Memory
empty_memory = record { strings = λ _. none; zsets = λ _. record { members = []; distinct = tt } }

abbrev trip_at : ℕ → Trip
trip_at t = record { sent = t; served = t; back = t + millisecond; fate = delivered }

abbrev first : Attempt Memory
first = record {
  others = λ db. db;
  trip = trip_at (10 * millisecond);
  cleanup = trip_at (10 * millisecond);
}

abbrev rounds : List (Round (Attempt Memory))
rounds = record { env = first; over = false; woken = true } ∷ []

abbrev outcome : Memory × Option Permit × Error
outcome = try_acquire memory_sets semaphore (b'p' ∷ []) 2 first (12 * millisecond) empty_memory

two_granted :
    acquire memory_sets semaphore (b'p' ∷ []) 2 rounds (12 * millisecond) empty_memory
    ≡ some outcome
unfolding acquire try_acquire attempt acquire_loop distsync.Lease.PermitSet.try_acquire transmit
    sem_acquire count_owned add_all is_error arrive tokens_from permit_token new_permit_set
    request_expiry milliseconds decimal digits zscore zcard zadd zremrangebyscore with_set score
    insert purge put Text_discrete ℕ_discrete
two_granted = refl

nothing_used : zcard empty_memory semaphore.key ≤ semaphore.capacity
unfolding zcard
nothing_used = omega arith

acquire_within_example :
    (free : ℕ) × (available memory_sets semaphore delivered outcome.0 ≡ some free)
    × (free + zcard outcome.0 semaphore.key ≡ semaphore.capacity)
acquire_within_example =
    acquire_within memory_sets memory_set_laws semaphore (b'p' ∷ []) 2 rounds (12 * millisecond)
      empty_memory outcome nothing_used (λ d h. h, tt) two_granted
