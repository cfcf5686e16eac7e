-- ===== src/Locks/Mutex/Examples.antt =====
-- Runs of a Mutex over a database in memory.
use distsync.Common.{
  ℕ, zero, suc, ◌+◌, ◌*◌, ◌≡◌, ◌||◌, refl, Bool, true, false, Option, none, some, List, [], ◌∷◌,
  Text, Text_discrete, Reply_discrete, ℕ_discrete,
}
use distsync.Common.Decimal.{decimal, digits, to_number}
use distsync.Redis.{millisecond}
use distsync.Redis.Memory.{Memory, memory_strings, get, set_px, put, del, incr}
use distsync.Redis.Memory.StringProofs.{memory_string_laws}
use distsync.Lease.Core.{
  Trip, delivered, busy, lost, Error, request_expiry, milliseconds, is_error, transmit, arrive,
}
use distsync.Lease.SingleOwner.{SingleOwner, extend, fence_flag, accept, try_acquire}
use distsync.Lease.SingleOwner.Scripts.{single_acquire, single_release}
use distsync.Lease.SingleOwner.Guarded.{single_owner}
use distsync.Handle.{Handle, is_nil, release}
use distsync.Locks.Loop.{Round, acquire_loop}
use distsync.Locks.Mutex.{
  Guard, Mutex, Attempt, new_lease, attempt, lock, try_lock, unlock, unlock_guard,
}
use distsync.Locks.Mutex.Laws.{lock-IsOneAttempt, IsOneAttempt}

abbrev mutex : Mutex
mutex = record {
  ttl = 10_000 * millisecond;
  auto_renew = true;
  watchdog = false;
  key = b'{' ∷ b'a' ∷ b'}' ∷ [];
  fkey = b'f' ∷ [];
  holder = none;
  guards = [];
}

abbrev token : Text
token = b'7' ∷ []

abbrev empty_memory : Memory
empty_memory = record { strings = λ _. none; zsets = λ _. record { members = []; distinct = tt } }

-- Another client holds the lock for 20 ms.
abbrev taken : Memory
taken = set_px empty_memory (5 * millisecond) mutex.key (b'8' ∷ []) 20

abbrev trip_at : ℕ → Trip
trip_at t = record { sent = t; served = t; back = t + millisecond; fate = delivered }

abbrev round_at : ℕ → Bool → Round (Attempt Memory)
round_at t over = record {
  env = record { others = λ db. db; trip = trip_at t; cleanup = trip_at t };
  over = over;
  woken = true;
}

-- Busy at 10 ms, granted at 60 ms.
abbrev rounds : List (Round (Attempt Memory))
rounds = round_at (10 * millisecond) false ∷ round_at (60 * millisecond) false ∷ []

abbrev outcome : Option (Memory × Mutex × Error)
outcome = lock memory_strings mutex token rounds (61 * millisecond) taken

lock_granted :
    outcome
    ≡ some (
        try_lock memory_strings mutex token
          (round_at (60 * millisecond) false).env
          (61 * millisecond)
          taken)
unfolding lock try_lock attempt acquire_loop new_lease try_acquire transmit single_acquire is_error
    arrive get set_px put incr request_expiry milliseconds fence_flag accept decimal digits
    to_number Text_discrete Reply_discrete ℕ_discrete
lock_granted = refl

lock-IsOneAttempt_example :
    IsOneAttempt memory_strings memory_string_laws mutex token rounds (61 * millisecond) taken (
      try_lock memory_strings mutex token
        (round_at (60 * millisecond) false).env
        (61 * millisecond)
        taken)
lock-IsOneAttempt_example =
    lock-IsOneAttempt memory_strings memory_string_laws mutex token rounds (61 * millisecond) taken
      _ lock_granted

-- The mutex with a guard, and the database where its token is stored.
abbrev handle : Handle SingleOwner
handle = record {
  leas = record {
    id = token;
    key = mutex.key;
    fkey = mutex.fkey;
    ttl = mutex.ttl;
    fencing = true;
    expires_at = 9_904 * millisecond;
  };
  released = false;
  release_done = false;
  is_lost = false;
  deadline_timer = some (9_904 * millisecond);
  joined = false;
}

abbrev held_guard : Guard
held_guard = record { handle = handle; fencing = 1 }

abbrev holding : Mutex
holding = record mutex { holder = some 0; guards = held_guard ∷ [] }

abbrev locked_memory : Memory
locked_memory = set_px empty_memory (5 * millisecond) mutex.key token 10_000

unlocked_holding :
    (is_nil (unlock memory_strings holding (trip_at (50 * millisecond)) locked_memory).2
      || is_error (unlock memory_strings holding (trip_at (50 * millisecond)) locked_memory).2 lost)
    ≡ true
unfolding unlock unlock_guard release distsync.Lease.SingleOwner.release single_owner transmit
    single_release is_error arrive get set_px put del Text_discrete Reply_discrete ℕ_discrete
unlocked_holding = refl

-- An attempt of the loop that is busy at 0 and otherwise reports its number.
abbrev step : ℕ → ℕ → ℕ × ℕ × Error
step s zero = (suc s, 0, busy ∷ [])
step s (suc n) = (suc s, n, [])

abbrev turn : ℕ → Bool → Round ℕ
turn n over = record { env = n; over = over; woken = true }

loop_granted : acquire_loop step 0 (turn 0 false ∷ turn 5 false ∷ []) ≡ some (2, 4, [])
unfolding acquire_loop is_error
loop_granted = refl
