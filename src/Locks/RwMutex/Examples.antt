-- ===== src/Locks/RwMutex/Examples.antt =====
-- Runs of an RWMutex over a database in memory, and the theorems at them.
use distsync.Common.{
  ℕ, ◌*◌, ◌<◌, ◌≡◌, ◌≢◌, refl, true, false, none, some, List, [], ◌∷◌, ◌++◌, ite, Text,
  Text_discrete, Reply_discrete, arith, All,
}
use distsync.Common.Decimal.{decimal, digits, to_number}
use distsync.Redis.{millisecond}
use distsync.Redis.Memory.{Memory, memory_strings, get, incr, pexpire, put, score}
use distsync.Redis.Memory.SetProofs.{memory_sets, zscore}
use distsync.Redis.Memory.WaitingProofs.{
  Lines, Tables, memory_queues, memory_hashes, memory_queue_laws, at_time, insert_last, expire,
  queue_zadd, queue_zrem, fields_at, hset, hdel, hpexpire,
}
use distsync.Redis.Waiting.{members_below, without}
use distsync.Lease.Core.{
  Trip, delivered, reply_lost, milliseconds, transmit, arrive, canceled, not_acquired, is_error,
}
use distsync.Lease.ReadWrite.Scripts.{
  RwKeys, Server, Store, writer_member, reader_member, place, keep_alive, purge_heads, purged,
  queued, try_write, rw_write_lock, try_read, rw_read_lock,
}
use distsync.Lease.ReadWrite.Writer as Writer
use distsync.Lease.ReadWrite.Reader as Reader
use distsync.Lease.ReadWrite.Writer.{waiter_timeout}
use distsync.Locks.Loop.{Round, queue_loop}
use distsync.Locks.RwMutex.{
  RwMutex, Attempt, write_side, read_side, attempt, leave, lock_side, try_side, lock, try_lock,
  r_lock, try_r_lock,
}
use distsync.Locks.Loop.Waiting.{Waited}
use distsync.Locks.RwMutex.Settled.{IsSettled}
use distsync.Locks.RwMutex.Places.{IsGone, try_locks-IsSettled, lock-IsSettled}

abbrev server : Server Memory Memory Lines Tables
server = record {
  strings = memory_strings;
  sets = memory_sets;
  queues = memory_queues;
  hashes = memory_hashes;
}

abbrev Db : Type 0
Db = Store Memory Memory Lines Tables

abbrev lock_keys : RwKeys
lock_keys = record {
  writer = b'w' ∷ [];
  readers = b'r' ∷ [];
  fencing = b'f' ∷ [];
  waiters = b'q' ∷ [];
  waiter_ts = b't' ∷ [];
  seq = b's' ∷ [];
}

abbrev a : Text
a = b'a' ∷ []

abbrev b : Text
b = b'b' ∷ []

-- Another writer holds the lock.
abbrev taken : Db
taken = record {
  strings = record {
    strings = λ k.
        ite (Text_discrete k lock_keys.writer) (some (record { value = b; until = none })) none;
    zsets = λ _. record { members = []; distinct = tt };
  };
  sets = record { strings = λ _. none; zsets = λ _. record { members = []; distinct = tt } };
  queue = λ _. record { members = []; distinct = tt; until = none };
  times = λ _. record { fields = []; until = none };
}

abbrev mutex : RwMutex
mutex = record {
  ttl = 10_000 * millisecond;
  auto_renew = false;
  watchdog = false;
  keys = lock_keys;
  write_holder = none;
  read_holder = none;
  writers = [];
  readers = [];
}

abbrev at : ℕ → Trip
at t = record {
  sent = t * millisecond;
  served = t * millisecond;
  back = t * millisecond;
  fate = delivered;
}

abbrev attempt_now : Attempt Db
attempt_now = record {
  others = λ s. s;
  trip = at 5;
  cleanup = at 5;
  then_others = λ s. s;
  first = at 6;
  second = at 7;
}

try_locks-IsSettled_example :
    IsSettled
      (write_side server)
      (IsGone server lock_keys (writer_member a))
      mutex
      5
      attempt_now
      (attempt (write_side server) (taken, Writer.new_rw_writer a lock_keys mutex.ttl) attempt_now)
      (not_acquired ∷ [])
      (try_lock server mutex a attempt_now 5 taken)
    × IsSettled
        (read_side server)
        (IsGone server lock_keys (reader_member a))
        mutex
        5
        attempt_now
        (attempt (read_side server) (taken, Reader.new_rw_reader a lock_keys mutex.ttl) attempt_now)
        (not_acquired ∷ [])
        (try_r_lock server mutex a attempt_now 5 taken)
try_locks-IsSettled_example =
    try_locks-IsSettled server memory_queue_laws mutex a 5 taken attempt_now

-- The context ends after the first attempt.
abbrev round : Round (Attempt Db)
round = record { env = attempt_now; over = true; woken = false }

abbrev gave_up : Db
gave_up = (try_lock server mutex a attempt_now 5 taken).0

abbrev read_gave_up : Db
read_gave_up = (try_r_lock server mutex a attempt_now 5 taken).0

lock_canceled : lock server mutex a (round ∷ []) 5 taken ≡ some (gave_up, mutex, canceled ∷ [])
unfolding lock try_lock lock_side try_side queue_loop attempt leave Writer.new_rw_writer
    Writer.try_acquire Writer.acquired transmit arrive is_error rw_write_lock try_write queued place
    keep_alive purged purge_heads milliseconds waiter_timeout get incr pexpire put at_time fields_at
    expire hset hpexpire hdel writer_member Text_discrete Reply_discrete decimal digits to_number
    queue_zadd queue_zrem insert_last without members_below
lock_canceled = refl

r_lock_canceled :
    r_lock server mutex a (round ∷ []) 5 taken ≡ some (read_gave_up, mutex, canceled ∷ [])
unfolding r_lock try_r_lock lock_side try_side queue_loop attempt leave Reader.new_rw_reader
    Reader.acquire Reader.acquired transmit arrive is_error rw_read_lock try_read queued place
    keep_alive purged purge_heads milliseconds zscore score waiter_timeout get incr pexpire put
    at_time fields_at expire hset hpexpire hdel reader_member Text_discrete Reply_discrete decimal
    digits to_number queue_zadd queue_zrem insert_last without members_below
r_lock_canceled = refl

lock-IsSettled_example :
    (waits : List (Round (Attempt Db))) × (r : Round (Attempt Db)) × (rest : List
      (Round (Attempt Db)))
    × (s' : Db × Writer.RwWriter) × (round ∷ [] ≡ waits ++ r ∷ rest)
    × Waited
        (attempt (write_side server))
        (taken, Writer.new_rw_writer a lock_keys mutex.ttl)
        waits
        s'
    × IsSettled
        (write_side server)
        (IsGone server lock_keys (writer_member a))
        mutex
        5
        r.env
        (attempt (write_side server) s' r.env)
        (canceled ∷ [])
        (gave_up, mutex, canceled ∷ [])
lock-IsSettled_example =
    lock-IsSettled server memory_queue_laws mutex a 5 taken (round ∷ [])
      (gave_up, mutex, canceled ∷ []) lock_canceled

-- The reply to the attempt is lost.
abbrev unanswered : Attempt Db
unanswered = record attempt_now { trip = record (at 5) { fate = reply_lost } }

queue_empty :
    All
      (λ e. e.1 < (memory_strings.incr taken.strings 5_000_000 lock_keys.seq).1)
      (memory_queues.range taken.queue 5_000_000 lock_keys.waiters)
unfolding at_time
queue_empty = tt

not_mine : get taken.strings 5_000_000 lock_keys.writer ≢ some a
unfolding get Text_discrete
not_mine = ground arith

refused :
    (rw_write_lock server lock_keys 5_000_000 taken a
      (milliseconds mutex.ttl)
      (milliseconds 5_000_000)
      (waiter_timeout mutex.ttl)).1
    ≡ none
unfolding rw_write_lock try_write queued place keep_alive purged purge_heads milliseconds
    waiter_timeout get incr pexpire put at_time fields_at expire hset hpexpire hdel writer_member
    Text_discrete Reply_discrete decimal digits to_number queue_zadd queue_zrem insert_last without
refused = refl

positive : 0 < waiter_timeout mutex.ttl
unfolding waiter_timeout milliseconds
positive = omega arith
