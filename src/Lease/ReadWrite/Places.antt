-- ===== src/Lease/ReadWrite/Places.antt =====
-- A contender's place in the arrival queue: a refused attempt keeps it, Dequeue gives it up.
use distsync.Common.{
  ℕ, ◌-◌, ◌<◌, ◌≡◌, ◌≢◌, inl, inr, refl, sym, ap, ◌∙◌, false, Option, none, some, List, [], ◌∷◌,
  ◌++◌, Text, arith, All,
}
use distsync.Redis.Waiting.{QueueLaws, HashLaws, score_in, without}
use distsync.Lease.Core.{Trip, request_lost}
use distsync.Lease.ReadWrite.Scripts.{
  RwKeys, Server, Store, is_silent, place, keep_alive, queued, try_write, try_read, rw_write_lock,
  rw_read_lock, writer_member, reader_member,
}
use distsync.Lease.ReadWrite.Writer.{dequeue_member}
use distsync.Lease.ReadWrite.Queue.{drop_silent}
use distsync.Lease.ReadWrite.Fifo.{joined, waiting, heard, range-queued, arrival_order}

drop_silent-heard :
    (times : Text → Option ℕ) (limit : ℕ) (m : Text) (es : List (Text × ℕ))
    → is_silent (times m) limit ≡ false
    → score_in (drop_silent times limit es) m ≡ score_in es m
unfolding drop_silent
drop_silent-heard times limit m [] h = refl
drop_silent-heard times limit m ((n, s) ∷ es) h =
    ground (arith, h, drop_silent-heard times limit m es)

score_in-append :
    (es : List (Text × ℕ)) (m : Text) (s : ℕ)
    → score_in es m ≡ none
    → score_in (es ++ (m, s) ∷ []) m ≡ some s
score_in-append [] m s e = ground arith
score_in-append ((n, k) ∷ es) m s e = ground (arith, e, score_in-append es m s)

gone : (es : List (Text × ℕ)) (m : Text) → score_in (without es m) m ≡ none
unfolding without
gone [] m = refl
gone ((n, s) ∷ es) m = ground (arith, gone es m)

module _ {S Z Q H : Type 0} (redis : Server S Z Q H) (queue_laws : QueueLaws redis.queues)
    (hash_laws : HashLaws redis.hashes) (keys : RwKeys) (t : ℕ) where
  open redis.strings use {get, exists, incr}
  open redis.queues use {range, zscore}
  open redis.hashes use {hget}

  module _ (s : Store S Z Q H) (token : Text) (ttl now timeout : ℕ) (pos : 0 < timeout) where
    pub place-times :
        (member : Text)
        → (place redis keys t s member now).0.times
          ≡ redis.hashes.hset s.times t keys.waiter_ts member now
    unfolding place
    place-times member = ground arith

    heard_self :
        (member : Text)
        → heard redis queue_laws hash_laws keys t s token ttl now timeout member member ≡ some now
    unfolding heard joined keep_alive
    heard_self member =
        let h' = redis.hashes.hset s.times t keys.waiter_ts member now in
        ap (λ h. hget (redis.hashes.hpexpire h t keys.waiter_ts timeout) t keys.waiter_ts member)
          (place-times member)
        ∙ hash_laws.hget-hpexpire h' t keys.waiter_ts timeout member pos
        ∙ hash_laws.hget-hset s.times t keys.waiter_ts member now member
        ∙ ground arith

    not_silent :
        (member : Text)
        → is_silent
            (heard redis queue_laws hash_laws keys t s token ttl now timeout member member)
            (now - timeout)
          ≡ false
    not_silent member = rw (heard_self member) (ground arith)

    -- The place is there once the contender has joined, and the purge leaves it.
    zscore-queued :
        (member : Text)
        → All (λ e. e.1 < (incr s.strings t keys.seq).1) (range s.queue t keys.waiters)
        → zscore (queued redis keys t s member now timeout).0.queue t keys.waiters member
          ≡ some (place redis keys t s member now).1
    zscore-queued member h =
        let q = (queued redis keys t s member now timeout).0.queue in
        let w = waiting redis queue_laws hash_laws keys t s token ttl now timeout member in
        let there : score_in w member ≡ some (place redis keys t s member now).1 =
          elim (arrival_order redis queue_laws hash_laws keys t s token ttl now timeout member pos
            h) [
              | inl (e, same) ↦
                  ap (λ l. score_in l member) same
                  ∙ sym (queue_laws.zscore_lem s.queue t keys.waiters member)
                  ∙ e
              | inr (e, last) ↦
                  ap (λ l. score_in l member) last
                  ∙ score_in-append (range s.queue t keys.waiters) member _
                      (sym (queue_laws.zscore_lem s.queue t keys.waiters member) ∙ e)
            ] in
        queue_laws.zscore_lem q t keys.waiters member
        ∙ ap (λ l. score_in l member)
            (range-queued redis queue_laws hash_laws keys t s token ttl now timeout member)
        ∙ drop_silent-heard _ (now - timeout) member w (not_silent member)
        ∙ there

    write_refused-queue :
        (u : Store S Z Q H)
        → (try_write redis keys t u token ttl now).1 ≡ none
        → (try_write redis keys t u token ttl now).0.queue ≡ u.queue
    unfolding try_write
    write_refused-queue u e = ground (arith, e)

    read_refused-queue :
        (u : Store S Z Q H) (seq : ℕ)
        → (try_read redis keys t u seq token ttl now).1 ≡ none
        → (try_read redis keys t u seq token ttl now).0.queue ≡ u.queue
    unfolding try_read
    read_refused-queue u seq e = ground (arith, e)

    -- A refused attempt to write leaves the contender in the queue under its arrival number, the one
    -- it had or else the next one, whatever was purged.
    pub refused_writer_stays :
        All (λ e. e.1 < (incr s.strings t keys.seq).1) (range s.queue t keys.waiters)
        → get s.strings t keys.writer ≢ some token
        → (rw_write_lock redis keys t s token ttl now timeout).1 ≡ none
        → let w = writer_member token in
          zscore (rw_write_lock redis keys t s token ttl now timeout).0.queue t keys.waiters w
          ≡ some (place redis keys t s w now).1
    unfolding rw_write_lock
    refused_writer_stays h other e =
        let u = queued redis keys t s (writer_member token) now timeout in
        let refused : (try_write redis keys t u.0 token ttl now).1 ≡ none =
          ground (arith, other, e) in
        let kept =
          ap (λ q. zscore q t keys.waiters (writer_member token))
            (write_refused-queue u.0 refused) in
        ground (arith, other, kept, zscore-queued (writer_member token) h)

    -- So does a refused attempt to read.
    pub refused_reader_stays :
        All (λ e. e.1 < (incr s.strings t keys.seq).1) (range s.queue t keys.waiters)
        → (rw_read_lock redis keys t s token ttl now timeout).1 ≡ none
        → let r = reader_member token in
          zscore (rw_read_lock redis keys t s token ttl now timeout).0.queue t keys.waiters r
          ≡ some (place redis keys t s r now).1
    unfolding rw_read_lock queued
    refused_reader_stays h e =
        let u = queued redis keys t s (reader_member token) now timeout in
        let refused : (try_read redis keys t u.0 u.1 token ttl now).1 ≡ none = ground (arith, e) in
        let kept =
          ap (λ q. zscore q t keys.waiters (reader_member token))
            (read_refused-queue u.0 u.1 refused) in
        ground (arith, e, kept, zscore-queued (reader_member token) h)

module _ {S Z Q H : Type 0} (redis : Server S Z Q H) (queue_laws : QueueLaws redis.queues)
    (keys : RwKeys) where
  -- A Dequeue that reaches the server takes the contender out of the queue.
  pub dequeue_member-gone :
      (member : Text) (first second : Trip) (s : Store S Z Q H)
      → first.fate ≢ request_lost
      → redis.queues.zscore
          (dequeue_member redis keys member first second s).queue
          first.served
          keys.waiters
          member
        ≡ none
  unfolding dequeue_member
  dequeue_member-gone member first second s ne =
      let q = redis.queues.zrem s.queue first.served keys.waiters member in
      let out =
        queue_laws.zscore_lem q first.served keys.waiters member
        ∙ ap (λ l. score_in l member)
            (queue_laws.range-zrem s.queue first.served keys.waiters member)
        ∙ gone (redis.queues.range s.queue first.served keys.waiters) member in
      ground (arith, ne, out)
