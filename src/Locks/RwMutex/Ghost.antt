-- ===== src/Locks/RwMutex/Ghost.antt =====
-- The place that a contender leaves behind when it does not learn that it was refused.
use distsync.Common.{ℕ, ◌<◌, ◌≡◌, ◌≢◌, refl, none, some, Option, [], ◌∷◌, ap, ◌∙◌, Text, All}
use distsync.Redis.Waiting.{QueueLaws, HashLaws}
use distsync.Lease.Core.{transport, reply_lost, arrive, transmit, is_error, milliseconds}
use distsync.Lease.ReadWrite.Scripts.{Server, Store, writer_member, place, rw_write_lock}
use distsync.Lease.ReadWrite.Writer as Writer
use distsync.Lease.ReadWrite.Writer.{waiter_timeout}
use distsync.Lease.ReadWrite.Places.{refused_writer_stays}
use distsync.Locks.RwMutex.{RwMutex, Attempt, write_side, attempt, tried, try_side, try_lock}

module _ {S Z Q H : Type 0} (redis : Server S Z Q H) (queue_laws : QueueLaws redis.queues)
    (hash_laws : HashLaws redis.hashes) where
  module _ (m : RwMutex) (token : Text) (a : Attempt (Store S Z Q H)) (now : ℕ)
      (s : Store S Z Q H) where
    -- The request of TryLock, as the server runs it.
    abbrev asked : Store S Z Q H × Option ℕ
    asked =
        rw_write_lock redis m.keys a.trip.served (a.others s) token (milliseconds m.ttl)
          (milliseconds a.trip.sent) (waiter_timeout m.ttl)

    lost_reply :
        a.trip.fate ≡ reply_lost
        → let w = Writer.new_rw_writer token m.keys m.ttl in
          Writer.try_acquire redis w a.trip a.cleanup (a.others s) ≡ (asked.0, w, 0, transport ∷ [])
    unfolding Writer.try_acquire Writer.acquired Writer.new_rw_writer transmit arrive
    lost_reply f = let u = asked in rw f refl

    unheard :
        a.trip.fate ≡ reply_lost → try_lock redis m token a now s ≡ (asked.0, m, transport ∷ [])
    unfolding try_lock try_side attempt Writer.new_rw_writer is_error
    unheard f = ap (λ o. tried (write_side redis) m now a ((o.0, o.1), o.2, o.3)) (lost_reply f)

    -- A TryLock whose request is refused and whose reply does not arrive returns a transport error
    -- without a Dequeue: its entry stays in the arrival queue, with nobody to serve.
    pub ghost_left :
        0 < waiter_timeout m.ttl
        → a.trip.fate ≡ reply_lost
        → All
            (λ e. e.1 < (redis.strings.incr (a.others s).strings a.trip.served m.keys.seq).1)
            (redis.queues.range (a.others s).queue a.trip.served m.keys.waiters)
        → redis.strings.get (a.others s).strings a.trip.served m.keys.writer ≢ some token
        → (rw_write_lock redis m.keys a.trip.served
            (a.others s)
            token
            (milliseconds m.ttl)
            (milliseconds a.trip.sent)
            (waiter_timeout m.ttl)).1
          ≡ none
        → let (s', m', e) = try_lock redis m token a now s in
          (e ≡ transport ∷ [])
          × (redis.queues.zscore s'.queue a.trip.served m.keys.waiters (writer_member token)
              ≡ some
                  (place redis m.keys a.trip.served
                    (a.others s)
                    (writer_member token)
                    (milliseconds a.trip.sent)).1)
    ghost_left pos f below other refused =
        let u = unheard f in
        (
          ap (λ o. o.2) u,
          ap (λ o. redis.queues.zscore o.0.queue a.trip.served m.keys.waiters (writer_member token))
                u
              ∙ refused_writer_stays redis queue_laws hash_laws m.keys a.trip.served (a.others s)
                  token (milliseconds m.ttl) (milliseconds a.trip.sent) (waiter_timeout m.ttl) pos
                  below other refused,
        )
