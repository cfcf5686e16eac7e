-- ===== src/Lease/ReadWrite/Reader.antt =====
-- RWReader of internal/lease/rw.go.
use distsync.Common.{ℕ, ◌==◌, Bool, Option, none, some, [], ◌∷◌, Text, leb, ltb, if◌then◌else◌}
use distsync.Lease.Core.{
  Error, busy, lost, transport, Trip, delivered, Reply, int, nil, failed, transmit, request_expiry,
  milliseconds,
}
use distsync.Lease.Interface.{Methods}
use distsync.Lease.PermitSet.Scripts.{sem_renew, sem_release, is_live}
use distsync.Lease.ReadWrite.Scripts.{RwKeys, Server, Store, reader_member, rw_read_lock}
use distsync.Lease.ReadWrite.Writer.{waiter_timeout, dequeue_member}

pub record RwReader : Type 0 where
  pub id : Text
  pub keys : RwKeys
  pub ttl : ℕ
  pub expires_at : ℕ

-- NewRWReader, with the token that `Token` draws
unfoldable pub new_rw_reader : Text → RwKeys → ℕ → RwReader
new_rw_reader token keys ttl = record { id = token; keys = keys; ttl = ttl; expires_at = 0 }

module _ {S Z Q H : Type 0} (redis : Server S Z Q H) where
  -- What a method leaves: the database, the lease and an error.
  abbrev pub Outcome : Type 0
  Outcome = Store S Z Q H × RwReader × Error

  -- The scripts of permits, on the set of readers.
  unfoldable pub renew_reader : RwKeys → Text → ℕ → ℕ → Store S Z Q H → Store S Z Q H × Option ℕ
  renew_reader keys token now ttl s =
      let (sets, r) = sem_renew redis.sets s.sets keys.readers now ttl (token ∷ []) in
      (record s { sets = sets }, r)

  unfoldable pub release_reader : RwKeys → Text → Store S Z Q H → Store S Z Q H × Option ℕ
  release_reader keys token s =
      let (sets, r) = sem_release redis.sets s.sets keys.readers (token ∷ []) in
      (record s { sets = sets }, r)

  unfoldable pub released : RwReader → Store S Z Q H × Reply → Outcome
  released r (s, failed) = (s, r, transport ∷ [])
  released r (s, nil) = (s, r, transport ∷ [])
  released r (s, int n) = if n == 1 then (s, record r { expires_at = 0 }, []) else (s, r, lost ∷ [])

  -- Release
  unfoldable pub release : RwReader → Trip → Store S Z Q H → Outcome
  unfolding released
  release r trip s = released r (transmit trip (λ d t. release_reader r.keys r.id d) s)

  unfoldable pub acquired : RwReader → Trip → Trip → Store S Z Q H × Reply → Outcome
  acquired r trip cleanup (s, failed) = (s, r, transport ∷ [])
  acquired r trip cleanup (s, nil) = (s, r, busy ∷ [])
  acquired r trip cleanup (s, int n) =
      let deadline = request_expiry trip.sent r.ttl in
      if leb deadline trip.back
      then (let (s', r', e) = release r cleanup s in (s', r', lost ∷ e))
      else (s, record r { expires_at = deadline }, [])

  -- Acquire; `cleanup` is the release that a late grant makes
  unfoldable pub acquire : RwReader → Trip → Trip → Store S Z Q H → Outcome
  unfolding acquired
  acquire r trip cleanup s = acquired r trip cleanup (
      transmit trip
        (λ d t.
          rw_read_lock redis r.keys t d r.id (milliseconds r.ttl) (milliseconds trip.sent)
            (waiter_timeout r.ttl))
        s)

  unfoldable pub renewed : RwReader → Trip → Store S Z Q H × Reply → Outcome
  renewed r trip (s, failed) = (s, r, transport ∷ [])
  renewed r trip (s, nil) = (s, r, transport ∷ [])
  renewed r trip (s, int n) =
      let deadline = request_expiry trip.sent r.ttl in
      if n == 1
      then (if leb r.expires_at trip.back
          then (s, r, lost ∷ [])
          else if leb deadline trip.back
          then (s, r, lost ∷ [])
          else if ltb r.expires_at deadline
          then (s, record r { expires_at = deadline }, [])
          else (s, r, []))
      else (s, r, lost ∷ [])

  -- Renew
  unfoldable pub renew : RwReader → Trip → Store S Z Q H → Outcome
  unfolding renewed
  renew r trip s = renewed r trip (
      transmit trip
        (λ d t. renew_reader r.keys r.id (milliseconds trip.sent) (milliseconds r.ttl) d) s)

  -- Held; `none` stands for its transport error. It compares with the time when the reply is read.
  unfoldable pub held : RwReader → Trip → Store S Z Q H → Option Bool
  held r trip s = elim trip.fate [
    | delivered ↦
        some (
          is_live redis.sets (milliseconds trip.back)
            (redis.sets.zscore s.sets r.keys.readers r.id))
    | _ ↦ none
  ]

  -- Dequeue
  unfoldable pub dequeue : RwReader → Trip → Trip → Store S Z Q H → Store S Z Q H
  unfolding dequeue_member
  dequeue r first second s = dequeue_member redis r.keys (reader_member r.id) first second s

  unfoldable pub rw_reader : Methods (Store S Z Q H) RwReader
  rw_reader = record {
    expires_at = λ r. r.expires_at;
    renew = λ r trip s. renew r trip s;
    release = λ r trip s. release r trip s;
    held = held;
  }
