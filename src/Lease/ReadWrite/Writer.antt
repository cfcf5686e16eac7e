-- ===== src/Lease/ReadWrite/Writer.antt =====
-- RWWriter of internal/lease/rw.go.
use distsync.Common.{
  ℕ, ◌*◌, ◌==◌, Bool, true, false, Option, none, some, [], ◌∷◌, ite, Text, Reply_discrete, leb, ltb,
  if◌then◌else◌,
}
use distsync.Lease.Core.{
  Error, busy, lost, transport, Trip, Fate, delivered, reply_lost, request_lost, Reply, int, nil,
  failed, transmit, request_expiry, milliseconds,
}
use distsync.Lease.Interface.{Methods}
use distsync.Lease.SingleOwner.Scripts.{single_renew, single_release}
use distsync.Lease.ReadWrite.Scripts.{RwKeys, Server, Store, writer_member, rw_write_lock}

pub record RwWriter : Type 0 where
  pub id : Text
  pub keys : RwKeys
  pub ttl : ℕ
  pub expires_at : ℕ

-- waiterTimeout, in milliseconds
unfoldable pub waiter_timeout : ℕ → ℕ
waiter_timeout ttl = milliseconds (ttl * 2)

-- NewRWWriter, with the token that `Token` draws
unfoldable pub new_rw_writer : Text → RwKeys → ℕ → RwWriter
new_rw_writer token keys ttl = record { id = token; keys = keys; ttl = ttl; expires_at = 0 }

-- A request without a reply to wait for: what it changes, and what it changes that to.
abbrev pub reached : {A : Type 0} → Fate → A → A → A
reached request_lost before after = before
reached reply_lost before after = after
reached delivered before after = after

module _ {S Z Q H : Type 0} (redis : Server S Z Q H) where
  -- What a method leaves: the database, the lease, a value and an error.
  abbrev pub Outcome : Type 0 → Type 0
  Outcome A = Store S Z Q H × RwWriter × A × Error

  -- The scripts of exclusive leases, on the writer key.
  unfoldable pub renew_writer : RwKeys → Text → ℕ → Store S Z Q H → ℕ → Store S Z Q H × Option ℕ
  renew_writer keys token ttl s t =
      let (strings, r) = single_renew redis.strings s.strings t keys.writer token ttl in
      (record s { strings = strings }, r)

  unfoldable pub release_writer : RwKeys → Text → Store S Z Q H → ℕ → Store S Z Q H × Option ℕ
  release_writer keys token s t =
      let (strings, r) = single_release redis.strings s.strings t keys.writer token in
      (record s { strings = strings }, r)

  unfoldable pub released : RwWriter → Store S Z Q H × Reply → Outcome Unit
  released w (s, failed) = (s, w, tt, transport ∷ [])
  released w (s, nil) = (s, w, tt, transport ∷ [])
  released w (s, int n) =
      if n == 1 then (s, record w { expires_at = 0 }, tt, []) else (s, w, tt, lost ∷ [])

  -- Release
  unfoldable pub release : RwWriter → Trip → Store S Z Q H → Outcome Unit
  unfolding released
  release w trip s = released w (transmit trip (release_writer w.keys w.id) s)

  unfoldable pub acquired : RwWriter → Trip → Trip → Store S Z Q H × Reply → Outcome ℕ
  acquired w trip cleanup (s, failed) = (s, w, 0, transport ∷ [])
  acquired w trip cleanup (s, nil) = (s, w, 0, busy ∷ [])
  acquired w trip cleanup (s, int n) =
      let deadline = request_expiry trip.sent w.ttl in
      if leb deadline trip.back
      then (let (s', w', u, e) = release w cleanup s in (s', w', 0, lost ∷ e))
      else (s, record w { expires_at = deadline }, n, [])

  -- TryAcquire; `cleanup` is the release that a late grant makes
  unfoldable pub try_acquire : RwWriter → Trip → Trip → Store S Z Q H → Outcome ℕ
  unfolding acquired
  try_acquire w trip cleanup s = acquired w trip cleanup (
      transmit trip
        (λ d t.
          rw_write_lock redis w.keys t d w.id (milliseconds w.ttl) (milliseconds trip.sent)
            (waiter_timeout w.ttl))
        s)

  unfoldable pub renewed : RwWriter → Trip → Store S Z Q H × Reply → Outcome Unit
  renewed w trip (s, failed) = (s, w, tt, transport ∷ [])
  renewed w trip (s, nil) = (s, w, tt, transport ∷ [])
  renewed w trip (s, int n) =
      let deadline = request_expiry trip.sent w.ttl in
      if n == 1
      then (if leb w.expires_at trip.back
          then (s, w, tt, lost ∷ [])
          else if leb deadline trip.back
          then (s, w, tt, lost ∷ [])
          else if ltb w.expires_at deadline
          then (s, record w { expires_at = deadline }, tt, [])
          else (s, w, tt, []))
      else (s, w, tt, lost ∷ [])

  -- Renew
  unfoldable pub renew : RwWriter → Trip → Store S Z Q H → Outcome Unit
  unfolding renewed
  renew w trip s = renewed w trip (transmit trip (renew_writer w.keys w.id (milliseconds w.ttl)) s)

  -- Held; `none` stands for its transport error
  unfoldable pub held : RwWriter → Trip → Store S Z Q H → Option Bool
  held w trip s = elim trip.fate [
    | delivered ↦ some (
        ite (Reply_discrete (redis.strings.get s.strings trip.served w.keys.writer) (some w.id))
          true false)
    | _ ↦ none
  ]

  -- ZREM and HDEL of a queue entry, each a request of its own whose error is dropped
  unfoldable pub dequeue_member : RwKeys → Text → Trip → Trip → Store S Z Q H → Store S Z Q H
  dequeue_member keys member first second s =
      let queue = redis.queues.zrem s.queue first.served keys.waiters member in
      let times = redis.hashes.hdel s.times second.served keys.waiter_ts member in
      record s {
        queue = reached first.fate s.queue queue;
        times = reached second.fate s.times times;
      }

  -- Dequeue
  unfoldable pub dequeue : RwWriter → Trip → Trip → Store S Z Q H → Store S Z Q H
  unfolding dequeue_member
  dequeue w first second s = dequeue_member w.keys (writer_member w.id) first second s

  unfoldable pub rw_writer : Methods (Store S Z Q H) RwWriter
  rw_writer = record {
    expires_at = λ w. w.expires_at;
    renew = λ w trip s. let (s', w', u, e) = renew w trip s in (s', w', e);
    release = λ w trip s. let (s', w', u, e) = release w trip s in (s', w', e);
    held = held;
  }
