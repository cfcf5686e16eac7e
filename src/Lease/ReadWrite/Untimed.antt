-- ===== src/Lease/ReadWrite/Untimed.antt =====
-- A waiter at the head of the queue without a time of its last attempt, as a Dequeue leaves it whose
-- first request is lost.
use distsync.Common.{
  ℕ, suc, ◌-◌, ◌<◌, ◌≡◌, ◌≢◌, inl, inr, ap, ◌∙◌, none, some, List, [], ◌∷◌, ◌++◌, Text, arith, All,
  length,
}
use distsync.Redis.Waiting.{QueueLaws, HashLaws, first_of}
use distsync.Lease.Core.{Trip, request_lost}
use distsync.Lease.ReadWrite.Scripts.{
  RwKeys, Server, Store, place, keep_alive, purge_heads, purged, queued, try_write, rw_write_lock,
  writer_member,
}
use distsync.Lease.ReadWrite.Writer.{dequeue_member}
use distsync.Lease.ReadWrite.Fifo.{joined, waiting, arrival_order}
use distsync.Lease.ReadWrite.Places.{place-times}

module _ {S Z Q H : Type 0} (redis : Server S Z Q H) (queue_laws : QueueLaws redis.queues)
    (hash_laws : HashLaws redis.hashes) (keys : RwKeys) where
  open redis.strings use {get, incr}
  open redis.queues use {range, head}
  open redis.hashes use {hget}

  -- A Dequeue whose first request is lost and whose second is served leaves the entry, without a time.
  pub half_dequeued :
      (member : Text) (first second : Trip) (s : Store S Z Q H)
      → first.fate ≡ request_lost
      → second.fate ≢ request_lost
      → ((dequeue_member redis keys member first second s).queue ≡ s.queue)
        × (hget
              (dequeue_member redis keys member first second s).times
              second.served
              keys.waiter_ts
              member
            ≡ none)
  unfolding dequeue_member
  half_dequeued member first second s lost served =
      let h = hash_laws.hget-hdel s.times second.served keys.waiter_ts member member in
      (ground (arith, lost), ground (arith, served, h))

  module _ (t : ℕ) where
    purge_heads_untimed :
        (n : ℕ) (q : Q) (h : H) (limit : ℕ) (m : Text)
        → head q t keys.waiters ≡ some m
        → hget h t keys.waiter_ts m ≡ none
        → purge_heads redis keys t (suc n) (q, h) limit ≡ (q, h)
    unfolding purge_heads
    purge_heads_untimed n q h limit m e e' = ground (arith, e, e')

    module _ (s : Store S Z Q H) (token : Text) (ttl now timeout : ℕ) (pos : 0 < timeout) (m : Text)
        (other : m ≢ writer_member token) (untimed : hget s.times t keys.waiter_ts m ≡ none) where
      joined-hget :
          hget
            (joined redis queue_laws hash_laws keys t s token ttl now timeout
              (writer_member token)).times
            t
            keys.waiter_ts
            m
          ≡ none
      unfolding joined keep_alive
      joined-hget =
          let w = writer_member token in
          let h' = redis.hashes.hset s.times t keys.waiter_ts w now in
          ap (λ h. hget (redis.hashes.hpexpire h t keys.waiter_ts timeout) t keys.waiter_ts m)
            (place-times redis queue_laws hash_laws keys t s token ttl now timeout pos w)
          ∙ hash_laws.hget-hpexpire h' t keys.waiter_ts timeout m pos
          ∙ hash_laws.hget-hset s.times t keys.waiter_ts w now m
          ∙ ground (arith, other, untimed)

      joined-range :
          (k : ℕ) (es : List (Text × ℕ))
          → range s.queue t keys.waiters ≡ (m, k) ∷ es
          → All (λ e. e.1 < (incr s.strings t keys.seq).1) (range s.queue t keys.waiters)
          → (es' : List (Text × ℕ)) × (waiting redis queue_laws hash_laws keys t s token ttl now
                timeout
                (writer_member token)
              ≡ (m, k) ∷ es')
      joined-range k es e h =
          let entry : Text × ℕ =
            (writer_member token, (place redis keys t s (writer_member token) now).1) in
          elim (arrival_order redis queue_laws hash_laws keys t s token ttl now timeout
            (writer_member token) pos h) [
              | inl (_, same) ↦ (es, same ∙ e)
              | inr (_, last) ↦ (es ++ entry ∷ [], last ∙ ap (λ l. l ++ entry ∷ []) e)
            ]

      -- Nothing is purged.
      queued_untimed :
          (k : ℕ) (es : List (Text × ℕ))
          → range s.queue t keys.waiters ≡ (m, k) ∷ es
          → All (λ e. e.1 < (incr s.strings t keys.seq).1) (range s.queue t keys.waiters)
          → let u = (queued redis keys t s (writer_member token) now timeout).0 in
            ((es' : List (Text × ℕ)) × (range u.queue t keys.waiters ≡ (m, k) ∷ es'))
            × (hget u.times t keys.waiter_ts m ≡ none)
      unfolding queued purged waiting joined
      queued_untimed k es e h =
          let j =
            joined redis queue_laws hash_laws keys t s token ttl now timeout
              (writer_member token) in
          let (es', there) = joined-range k es e h in
          let first = queue_laws.head_lem j.queue t keys.waiters ∙ ap first_of there in
          let same =
            purge_heads_untimed (length (range j.queue t keys.waiters)) j.queue j.times
              (now - timeout) m first joined-hget in
          (
            (es', ap (λ u. range u.0 t keys.waiters) same ∙ there),
            ap (λ u. hget u.1 t keys.waiter_ts m) same ∙ joined-hget,
          )

      try_write_untimed :
          (u : Store S Z Q H)
          → head u.queue t keys.waiters ≡ some m
          → try_write redis keys t u token ttl now ≡ (u, none)
      unfolding try_write
      try_write_untimed u e = ground (arith, e, other)

      -- A waiter at the head of the queue that has no time of its last attempt, as such a Dequeue
      -- leaves it, is not purged by another writer's attempt: the writer is refused, whatever the
      -- clocks say, and the waiter is at the head without a time still.
      pub untimed_blocks :
          (k : ℕ) (es : List (Text × ℕ))
          → range s.queue t keys.waiters ≡ (m, k) ∷ es
          → All (λ e. e.1 < (incr s.strings t keys.seq).1) (range s.queue t keys.waiters)
          → get s.strings t keys.writer ≢ some token
          → let r = rw_write_lock redis keys t s token ttl now timeout in
            (r.1 ≡ none)
            × ((es' : List (Text × ℕ)) × (range r.0.queue t keys.waiters ≡ (m, k) ∷ es'))
            × (hget r.0.times t keys.waiter_ts m ≡ none)
      unfolding rw_write_lock
      untimed_blocks k es e h free =
          let u = (queued redis keys t s (writer_member token) now timeout).0 in
          let ((es', there), untimed') = queued_untimed k es e h in
          let refused =
            try_write_untimed u (queue_laws.head_lem u.queue t keys.waiters ∙ ap first_of there) in
          let answer : rw_write_lock redis keys t s token ttl now timeout ≡ (u, none) =
            ground (arith, free, refused) in
          (
            ap (λ r. r.1) answer,
            (es', ap (λ r. range r.0.queue t keys.waiters) answer ∙ there),
            ap (λ r. hget r.0.times t keys.waiter_ts m) answer ∙ untimed',
          )
