-- ===== src/Lease/ReadWrite/Examples.antt =====
-- Runs of the read-write lock over a database in memory, and the theorems at them.
use distsync.Common.{
  ℕ, ◌-◌, ◌*◌, ◌<◌, ◌≡◌, ◌≢◌, ◌⊎◌, refl, inl, true, false, none, some, Option, List, [], ◌∷◌, ◌++◌,
  ◌&&◌, ite, Text, Text_discrete, Reply_discrete, arith, All, ltb,
}
use distsync.Common.Decimal.{decimal, digits, to_number}
use distsync.Redis.{millisecond}
use distsync.Redis.Memory.{
  Memory, memory_strings, get, set_px, incr, pexpire, put, score, insert, purge,
}
use distsync.Redis.Memory.StringProofs.{memory_string_laws}
use distsync.Redis.Memory.SetProofs.{
  memory_sets, memory_set_laws, zscore, zcard, zadd, zremrangebyscore, with_set,
}
use distsync.Redis.Memory.WaitingProofs.{
  Lines, Tables, memory_queues, memory_hashes, memory_queue_laws, memory_hash_laws, at_time,
  insert_last, expire, queue_zadd, queue_zrem, fields_at, hset, hdel, hpexpire,
}
use distsync.Redis.Waiting.{members_below, without}
use distsync.Lease.Core.{
  Trip, delivered, request_lost, request_expiry, milliseconds, transmit, arrive,
}
use distsync.Lease.ReadWrite.Scripts.{
  RwKeys, Server, Store, writer_member, reader_member, place, keep_alive, purge_heads, purged,
  queued, leave_queue, is_silent, is_owned, is_writer, has_writer, grant_write, try_write,
  rw_write_lock, try_read, rw_read_lock,
}
use distsync.Lease.ReadWrite.Writer.{
  RwWriter, waiter_timeout, try_acquire, renew, renewed, renew_writer, rw_writer, dequeue_member,
}
use distsync.Lease.ReadWrite.Reader.{RwReader, acquire, renew_reader, rw_reader}
use distsync.Lease.ReadWrite.Reader as Reader
use distsync.Lease.SingleOwner.Scripts.{single_renew}
use distsync.Lease.PermitSet.Scripts.{sem_renew, all_live, add_all}
use distsync.Lease.ReadWrite.Calls.{writes, serve}
use distsync.Lease.ReadWrite.Lives.{Turn, theirs, ours, InOrder, live}
use distsync.Lease.ReadWrite.Fifo.{waiting, heard, writer_in_order, reader_in_order}
use distsync.Lease.ReadWrite.Untimed.{half_dequeued}
use distsync.Lease.ReadWrite.Exclusion.Frame.{IsApart, LockLaws}
use distsync.Lease.ReadWrite.Exclusion.Writer.{writer_excludes}
use distsync.Lease.ReadWrite.Exclusion.Reader.{reader_excludes}

abbrev server : Server Memory Memory Lines Tables
server = record {
  strings = memory_strings;
  sets = memory_sets;
  queues = memory_queues;
  hashes = memory_hashes;
}

abbrev lock_keys : RwKeys
lock_keys = record {
  writer = b'w' ∷ [];
  readers = b'r' ∷ [];
  fencing = b'f' ∷ [];
  waiters = b'q' ∷ [];
  waiter_ts = b't' ∷ [];
  seq = b's' ∷ [];
}

lock_laws : LockLaws server
lock_laws = record { strings = memory_string_laws; sets = memory_set_laws }

keys-IsApart : IsApart lock_keys
keys-IsApart = record { fencing = ground arith; seq = ground arith }

abbrev empty_memory : Memory
empty_memory = record { strings = λ _. none; zsets = λ _. record { members = []; distinct = tt } }

abbrev blank : Store Memory Memory Lines Tables
blank = record {
  strings = empty_memory;
  sets = empty_memory;
  queue = λ _. record { members = []; distinct = tt; until = none };
  times = λ _. record { fields = []; until = none };
}

abbrev a : Text
a = b'a' ∷ []

abbrev b : Text
b = b'b' ∷ []

-- 10 s
abbrev ten_seconds : ℕ
ten_seconds = 10_000 * millisecond

abbrev trip : Trip
trip = record {
  sent = 5 * millisecond;
  served = 6 * millisecond;
  back = 7 * millisecond;
  fate = delivered;
}

abbrev writer : RwWriter
writer = record { id = a; keys = lock_keys; ttl = ten_seconds; expires_at = 0 }

abbrev reader : RwReader
reader = record { id = a; keys = lock_keys; ttl = ten_seconds; expires_at = 0 }

-- Another client queues up 1 ms later; the holder renews its lease at 4 s; the other asks again.
abbrev turns : List Turn
turns =
    theirs (record { delay = 1 * millisecond; age = 1 * millisecond; kind = writes b 100 200 })
    ∷ ours (4_000 * millisecond) (1 * millisecond) (1 * millisecond) delivered
    ∷ theirs (record { delay = 6_000 * millisecond; age = 0; kind = writes b 100 200 })
    ∷ []

turns-InOrder : InOrder trip.sent trip.served turns
unfolding InOrder
turns-InOrder = (omega arith, tt)

abbrev locked : Store Memory Memory Lines Tables
locked = (try_acquire server writer trip trip blank).0

abbrev after : ℕ × Store Memory Memory Lines Tables × RwWriter
after =
    live server lock_keys (rw_writer server) trip.served locked
      (try_acquire server writer trip trip blank).1 turns

b_is_not_a : b ≢ a
b_is_not_a = ground arith

locked_ok : (try_acquire server writer trip trip blank).3 ≡ []
unfolding try_acquire transmit arrive rw_write_lock try_write grant_write leave_queue queued place
    keep_alive purged purge_heads milliseconds waiter_timeout request_expiry get set_px incr pexpire
    put zscore zcard zremrangebyscore at_time fields_at expire hset hpexpire hdel writer_member
    Text_discrete Reply_discrete decimal digits to_number with_set queue_zadd queue_zrem insert_last
    purge without members_below
locked_ok = refl

fresh : get empty_memory (6 * millisecond) lock_keys.writer ≢ some a
unfolding get
fresh = ground arith

deadline : after.2.expires_at ≡ 13_905_000_000
unfolding live serve rw_writer renew renewed renew_writer single_renew try_acquire transmit arrive
    rw_write_lock try_write grant_write leave_queue queued place keep_alive purged purge_heads
    milliseconds waiter_timeout request_expiry get set_px incr pexpire put zscore zcard
    zremrangebyscore at_time fields_at expire hset hpexpire hdel writer_member Text_discrete
    Reply_discrete decimal digits to_number with_set queue_zadd queue_zrem insert_last purge without
    members_below
deadline = refl

time : after.0 ≡ 10_007_000_000
unfolding live
time = refl

writer_excludes_example :
    ((rw_write_lock server lock_keys after.0 after.1 b 100 7 200).1 ≡ none)
    × ((rw_read_lock server lock_keys after.0 after.1 b 100 7 200).1 ≡ none)
writer_excludes_example =
    writer_excludes server lock_laws writer keys-IsApart trip trip blank turns (omega arith) fresh
      locked_ok turns-InOrder (b_is_not_a, (tt, (b_is_not_a, tt))) (omega (arith, deadline, time)) b
      100 7 200 b_is_not_a

abbrev barred : ℕ × Store Memory Memory Lines Tables × RwReader
barred =
    live server lock_keys (rw_reader server) trip.served (acquire server reader trip trip blank).0
      (acquire server reader trip trip blank).1 turns

read_ok : (acquire server reader trip trip blank).2 ≡ []
unfolding acquire transmit arrive rw_read_lock try_read has_writer leave_queue queued place
    keep_alive purged purge_heads milliseconds waiter_timeout request_expiry get incr pexpire put
    zscore zadd at_time fields_at expire hset hpexpire hdel reader_member Text_discrete
    Reply_discrete decimal digits to_number with_set queue_zadd queue_zrem insert_last insert
    without members_below score
read_ok = refl

read_deadline : barred.2.expires_at ≡ 13_905_000_000
unfolding live serve rw_reader Reader.renew Reader.renewed renew_reader sem_renew rw_write_lock
    try_write all_live add_all acquire transmit arrive rw_read_lock try_read has_writer leave_queue
    queued place keep_alive purged purge_heads milliseconds waiter_timeout request_expiry get incr
    pexpire put zscore zadd at_time fields_at expire hset hpexpire hdel reader_member Text_discrete
    Reply_discrete decimal digits to_number with_set queue_zadd queue_zrem insert_last insert
    without members_below score writer_member zcard zremrangebyscore
read_deadline = refl

read_time : barred.0 ≡ 10_007_000_000
unfolding live
read_time = refl

not_reading : is_owned (zscore empty_memory lock_keys.readers a) (milliseconds trip.sent) ≡ false
unfolding zscore score
not_reading = refl

reader_excludes_example :
    (rw_write_lock server lock_keys barred.0 barred.1 b 100 (milliseconds (barred.0 - 0)) 200).1
    ≡ none
reader_excludes_example =
    reader_excludes server lock_laws reader keys-IsApart (inl (omega arith)) trip trip blank turns
      (omega arith) not_reading read_ok turns-InOrder (b_is_not_a, (tt, (b_is_not_a, tt)))
      (omega (arith, read_deadline, read_time)) b 100 0 200

-- A writer queued first, and was last heard of at 100.
abbrev crowd : Store Memory Memory Lines Tables
crowd = record {
  strings = record {
    strings = λ k.
        ite (Text_discrete k lock_keys.seq) (some (record { value = decimal 1; until = none }))
          none;
    zsets = λ _. record { members = []; distinct = tt };
  };
  sets = empty_memory;
  queue = λ _. record { members = (writer_member b, 1) ∷ []; distinct = (refl, tt); until = none };
  times = λ _. record { fields = (writer_member b, 100) ∷ []; until = none };
}

behind_crowd :
    All
      (λ e. e.1 < (memory_strings.incr crowd.strings 0 lock_keys.seq).1)
      (memory_queues.range crowd.queue 0 lock_keys.waiters)
unfolding incr get at_time decimal digits to_number Text_discrete
behind_crowd = (omega arith, tt)

not_writing : get crowd.strings 0 lock_keys.writer ≢ some a
unfolding get Text_discrete
not_writing = ground arith

overtakes_silent : (rw_write_lock server lock_keys 0 crowd a 100 500 200).1 ≡ some 1
unfolding rw_write_lock try_write grant_write leave_queue queued place keep_alive purged purge_heads
    get set_px incr pexpire put zscore zcard zremrangebyscore at_time fields_at expire hset hpexpire
    hdel writer_member Text_discrete Reply_discrete decimal digits to_number with_set queue_zadd
    queue_zrem insert_last purge without members_below
overtakes_silent = refl

reads_past_silent : (rw_read_lock server lock_keys 0 crowd a 100 500 200).1 ≡ some 1
unfolding rw_read_lock try_read has_writer is_writer leave_queue queued place keep_alive purged
    purge_heads get incr pexpire put zscore zadd at_time fields_at expire hset hpexpire hdel
    writer_member reader_member Text_discrete Reply_discrete decimal digits to_number with_set
    queue_zadd queue_zrem insert_last insert without members_below score
reads_past_silent = refl

never_reading : is_owned (zscore empty_memory lock_keys.readers a) 500 ≡ false
unfolding zscore score
never_reading = refl

abbrev seen : Text → List (Text × ℕ)
seen member =
    waiting server memory_queue_laws memory_hash_laws lock_keys 0 crowd a 100 500 200 member

abbrev last_heard : Text → Text → Option ℕ
last_heard member =
    heard server memory_queue_laws memory_hash_laws lock_keys 0 crowd a 100 500 200 member

writer_in_order_example :
    (before rest : List (Text × ℕ)) × (seen (writer_member a) ≡ before ++ rest)
    × All (λ e. is_silent (last_heard (writer_member a) e.0) 300 ≡ true) before
    × ((rest ≡ [])
        ⊎ ((score : ℕ) × (behind : List (Text × ℕ)) × (rest ≡ (writer_member a, score) ∷ behind)))
writer_in_order_example =
    writer_in_order server memory_queue_laws memory_hash_laws lock_keys 0 crowd a 100 500 200 1
      not_writing overtakes_silent

reader_in_order_example :
    let seq = (place server lock_keys 0 crowd (reader_member a) 500).1 in
    (before rest : List (Text × ℕ)) × (seen (reader_member a) ≡ before ++ rest)
    × All (λ e. is_silent (last_heard (reader_member a) e.0) 300 ≡ true) before
    × All (λ e. (is_writer e.0 && ltb e.1 seq) ≡ false) rest
reader_in_order_example =
    reader_in_order server memory_queue_laws memory_hash_laws lock_keys 0 crowd a 100 500 200 1
      never_reading reads_past_silent

crowd_range : memory_queues.range crowd.queue 0 lock_keys.waiters ≡ (writer_member b, 1) ∷ []
unfolding at_time
crowd_range = refl

abbrev lost_trip : Trip
lost_trip = record { sent = 0; served = 0; back = 0; fate = request_lost }

abbrev later_trip : Trip
later_trip = record { sent = 0; served = 0; back = 0; fate = delivered }

-- The waiter in the crowd gives up, and the first request of its Dequeue is lost.
abbrev half : Store Memory Memory Lines Tables
half = dequeue_member server lock_keys (writer_member b) lost_trip later_trip crowd

half_gone :
    (half.queue ≡ crowd.queue)
    × (memory_hashes.hget half.times 0 lock_keys.waiter_ts (writer_member b) ≡ none)
half_gone =
    half_dequeued server memory_queue_laws memory_hash_laws lock_keys (writer_member b) lost_trip
      later_trip crowd refl (ground arith)

members_differ : writer_member b ≢ writer_member a
unfolding writer_member
members_differ = ground arith

behind_half :
    All
      (λ e. e.1 < (memory_strings.incr half.strings 0 lock_keys.seq).1)
      (memory_queues.range half.queue 0 lock_keys.waiters)
unfolding dequeue_member incr get at_time decimal digits to_number Text_discrete
behind_half = (omega arith, tt)

half_range : memory_queues.range half.queue 0 lock_keys.waiters ≡ (writer_member b, 1) ∷ []
unfolding dequeue_member at_time
half_range = refl

nobody_writes : get half.strings 0 lock_keys.writer ≢ some a
unfolding dequeue_member get Text_discrete
nobody_writes = ground arith
