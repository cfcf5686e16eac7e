-- ===== src/Locks/RwMutex/Places.antt =====
-- What Lock, TryLock, RLock and TryRLock leave in the arrival queue.
use distsync.Common.{
  ℕ, ◌≡◌, ◌≢◌, ◌⊎◌, inl, inr, refl, none, some, List, [], ◌∷◌, ◌++◌, arith, ◌∙◌, Text, subst,
}
use distsync.Redis.Waiting.{QueueLaws}
use distsync.Lease.Core.{
  Error, canceled, not_acquired, Trip, Fate, delivered, reply_lost, request_lost,
}
use distsync.Lease.ReadWrite.Scripts.{RwKeys, Server, Store, writer_member, reader_member}
use distsync.Lease.ReadWrite.Writer as Writer
use distsync.Lease.ReadWrite.Writer.{dequeue_member}
use distsync.Lease.ReadWrite.Reader as Reader
use distsync.Lease.ReadWrite.Places.{dequeue_member-gone}
use distsync.Locks.Loop.{Round}
use distsync.Locks.Loop.Waiting.{Waited}
use distsync.Locks.RwMutex.Settled.{IsSettled, try_side-IsSettled, lock_side-IsSettled}
use distsync.Locks.RwMutex.{
  RwMutex, Attempt, attempt, leave, write_side, read_side, lock, try_lock, r_lock, try_r_lock,
}

module _ {S Z Q H : Type 0} (redis : Server S Z Q H) where
  writer-same :
      (w : Writer.RwWriter) (trip cleanup : Trip) (s : Store S Z Q H)
      → ((Writer.try_acquire redis w trip cleanup s).1.id ≡ w.id)
        × ((Writer.try_acquire redis w trip cleanup s).1.keys ≡ w.keys)
  unfolding Writer.try_acquire Writer.acquired Writer.release Writer.released
  writer-same w trip cleanup s = (ground arith, ground arith)

  reader-same :
      (r : Reader.RwReader) (trip cleanup : Trip) (s : Store S Z Q H)
      → ((Reader.acquire redis r trip cleanup s).1.id ≡ r.id)
        × ((Reader.acquire redis r trip cleanup s).1.keys ≡ r.keys)
  unfolding Reader.acquire Reader.acquired Reader.release Reader.released
  reader-same r trip cleanup s = (ground arith, ground arith)

  -- The first request of Dequeue did not reach the server, or the member is not in the queue.
  unfoldable pub IsGone : RwKeys → Text → Attempt (Store S Z Q H) → Store S Z Q H → Type 0
  IsGone keys member a s =
      (a.first.fate ≡ request_lost)
      ⊎ (redis.queues.zscore s.queue a.first.served keys.waiters member ≡ none)

  reaches : (f : Fate) → (f ≡ request_lost) ⊎ (f ≢ request_lost)
  reaches delivered = inr (ground arith)
  reaches reply_lost = inr (ground arith)
  reaches request_lost = inl refl

  module _ (queue_laws : QueueLaws redis.queues) where
    dequeue_member-IsGone :
        (keys : RwKeys) (member : Text) (a : Attempt (Store S Z Q H)) (s : Store S Z Q H)
        → IsGone keys member a (dequeue_member redis keys member a.first a.second s)
    unfolding IsGone
    dequeue_member-IsGone keys member a s = elim (reaches a.first.fate) [
      | inl e ↦ inl e
      | inr ne ↦ inr (dequeue_member-gone redis queue_laws keys member a.first a.second s ne)
    ]

    write_drops :
        (keys : RwKeys) (token : Text) (w : Writer.RwWriter) (a : Attempt (Store S Z Q H))
        (s : Store S Z Q H)
        → (w.id ≡ token) × (w.keys ≡ keys)
        → IsGone keys (writer_member token) a (leave (write_side redis) (s, w) a).0
    unfolding leave Writer.dequeue
    write_drops keys token w a s (i, k) =
        subst
          (λ i'.
            IsGone keys (writer_member i') a
              (Writer.dequeue redis w a.first a.second (a.then_others s)))
          i
          (subst
            (λ k'.
              IsGone k' (writer_member w.id) a
                (Writer.dequeue redis w a.first a.second (a.then_others s)))
            k (dequeue_member-IsGone w.keys (writer_member w.id) a (a.then_others s)))

    read_drops :
        (keys : RwKeys) (token : Text) (r : Reader.RwReader) (a : Attempt (Store S Z Q H))
        (s : Store S Z Q H)
        → (r.id ≡ token) × (r.keys ≡ keys)
        → IsGone keys (reader_member token) a (leave (read_side redis) (s, r) a).0
    unfolding leave Reader.dequeue
    read_drops keys token r a s (i, k) =
        subst
          (λ i'.
            IsGone keys (reader_member i') a
              (Reader.dequeue redis r a.first a.second (a.then_others s)))
          i
          (subst
            (λ k'.
              IsGone k' (reader_member r.id) a
                (Reader.dequeue redis r a.first a.second (a.then_others s)))
            k (dequeue_member-IsGone r.keys (reader_member r.id) a (a.then_others s)))

    writer_kept :
        (keys : RwKeys) (token : Text) (w : Writer.RwWriter) (trip cleanup : Trip)
        (s : Store S Z Q H)
        → (w.id ≡ token) × (w.keys ≡ keys)
        → let w' = (Writer.try_acquire redis w trip cleanup s).1 in
          (w'.id ≡ token) × (w'.keys ≡ keys)
    writer_kept keys token w trip cleanup s (i, k) =
        ((writer-same w trip cleanup s).0 ∙ i, (writer-same w trip cleanup s).1 ∙ k)

    reader_kept :
        (keys : RwKeys) (token : Text) (r : Reader.RwReader) (trip cleanup : Trip)
        (s : Store S Z Q H)
        → (r.id ≡ token) × (r.keys ≡ keys)
        → let r' = (Reader.acquire redis r trip cleanup s).1 in (r'.id ≡ token) × (r'.keys ≡ keys)
    reader_kept keys token r trip cleanup s (i, k) =
        ((reader-same r trip cleanup s).0 ∙ i, (reader-same r trip cleanup s).1 ∙ k)

    module _ (m : RwMutex) (token : Text) (now : ℕ) (s : Store S Z Q H) where
      -- What TryLock and TryRLock return, by the answer of their one attempt on a fresh lease. If it
      -- has no error, the lock is held by a guard on that lease, with the fencing token of the answer.
      -- If it is ErrBusy, they say ErrNotAcquired and leave neither a guard nor a place in the arrival
      -- queue, if the first request of Dequeue reaches the server. Any other error is returned as it
      -- is, without a guard.
      pub try_locks-IsSettled :
          (a : Attempt (Store S Z Q H))
          → IsSettled
              (write_side redis)
              (IsGone m.keys (writer_member token))
              m
              now
              a
              (attempt (write_side redis) (s, Writer.new_rw_writer token m.keys m.ttl) a)
              (not_acquired ∷ [])
              (try_lock redis m token a now s)
            × IsSettled
                (read_side redis)
                (IsGone m.keys (reader_member token))
                m
                now
                a
                (attempt (read_side redis) (s, Reader.new_rw_reader token m.keys m.ttl) a)
                (not_acquired ∷ [])
                (try_r_lock redis m token a now s)
      unfolding try_lock try_r_lock Writer.new_rw_writer Reader.new_rw_reader
      try_locks-IsSettled a = (
        try_side-IsSettled (write_side redis) (IsGone m.keys (writer_member token))
            (λ w. (w.id ≡ token) × (w.keys ≡ m.keys)) (writer_kept m.keys token)
            (write_drops m.keys token) m (Writer.new_rw_writer token m.keys m.ttl) a now s
            (refl, refl),
        try_side-IsSettled (read_side redis) (IsGone m.keys (reader_member token))
            (λ r. (r.id ≡ token) × (r.keys ≡ m.keys)) (reader_kept m.keys token)
            (read_drops m.keys token) m (Reader.new_rw_reader token m.keys m.ttl) a now s
            (refl, refl),
      )

      module _ (rounds : List (Round (Attempt (Store S Z Q H))))
          (out : Store S Z Q H × RwMutex × Error) where
        -- If Lock returns, it has waited for some rounds whose attempts were all busy, and the attempt
        -- of the next round decides what it returns. If it has no error, the lock is held by a guard on
        -- its lease, with the fencing token of the answer. If it is ErrBusy, Lock returns the context's
        -- error and leaves neither a guard nor a place in the arrival queue, if the first request of
        -- Dequeue reaches the server. Any other error is returned as it is, without a guard.
        pub lock-IsSettled :
            lock redis m token rounds now s ≡ some out
            → (waits : List (Round (Attempt (Store S Z Q H)))) × (r : Round
                (Attempt (Store S Z Q H)))
              × (rest : List (Round (Attempt (Store S Z Q H)))) × (s' : Store S Z Q H
                  × Writer.RwWriter)
              × (rounds ≡ waits ++ r ∷ rest)
              × Waited
                  (attempt (write_side redis))
                  (s, Writer.new_rw_writer token m.keys m.ttl)
                  waits
                  s'
              × IsSettled
                  (write_side redis)
                  (IsGone m.keys (writer_member token))
                  m
                  now
                  r.env
                  (attempt (write_side redis) s' r.env)
                  (canceled ∷ [])
                  out
        unfolding lock Writer.new_rw_writer
        lock-IsSettled e =
            lock_side-IsSettled (write_side redis) (IsGone m.keys (writer_member token))
              (λ w. (w.id ≡ token) × (w.keys ≡ m.keys)) (writer_kept m.keys token)
              (write_drops m.keys token) m (Writer.new_rw_writer token m.keys m.ttl) rounds now s
              out (refl, refl) e

        -- And so does RLock.
        pub r_lock-IsSettled :
            r_lock redis m token rounds now s ≡ some out
            → (waits : List (Round (Attempt (Store S Z Q H)))) × (r : Round
                (Attempt (Store S Z Q H)))
              × (rest : List (Round (Attempt (Store S Z Q H)))) × (s' : Store S Z Q H
                  × Reader.RwReader)
              × (rounds ≡ waits ++ r ∷ rest)
              × Waited
                  (attempt (read_side redis))
                  (s, Reader.new_rw_reader token m.keys m.ttl)
                  waits
                  s'
              × IsSettled
                  (read_side redis)
                  (IsGone m.keys (reader_member token))
                  m
                  now
                  r.env
                  (attempt (read_side redis) s' r.env)
                  (canceled ∷ [])
                  out
        unfolding r_lock Reader.new_rw_reader
        r_lock-IsSettled e =
            lock_side-IsSettled (read_side redis) (IsGone m.keys (reader_member token))
              (λ r. (r.id ≡ token) × (r.keys ≡ m.keys)) (reader_kept m.keys token)
              (read_drops m.keys token) m (Reader.new_rw_reader token m.keys m.ttl) rounds now s out
              (refl, refl) e
