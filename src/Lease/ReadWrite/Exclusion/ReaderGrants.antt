-- ===== src/Lease/ReadWrite/Exclusion/ReaderGrants.antt =====
-- What a reader's grant and its renewals leave of the database and of the lease.
use distsync.Common.{
  ℕ, ◌+◌, ◌-◌, ◌<◌, ◌≤◌, ◌≡◌, ◌⊎◌, inl, refl, false, Option, none, some, [], Text, arith,
}
use distsync.Lease.Core.{milliseconds, request_expiry, Trip, Reply, int, nil, failed, arrive}
use distsync.Lease.ReadWrite.Scripts.{
  RwKeys, Server, Store, is_owned, queued, reader_member, leave_queue, try_read, rw_read_lock,
}
use distsync.Lease.ReadWrite.Writer.{waiter_timeout}
use distsync.Lease.ReadWrite.Reader.{RwReader, acquired, renewed}
use distsync.Lease.ReadWrite.Exclusion.Frame.{IsApart, LockLaws}
use distsync.Lease.ReadWrite.Exclusion.ReaderHolds.{ReaderHolds}

before_score :
    (t t' age score : ℕ) → t ≤ t' → milliseconds t' < score → milliseconds (t - age) < score
unfolding milliseconds
before_score t t' age score le lt = omega (arith, le, lt)

module _ {S Z Q H : Type 0} (redis : Server S Z Q H) (laws : LockLaws redis) (keys : RwKeys)
    (apart : IsApart keys) where
  open redis.strings use {get, exists}
  open redis.sets use {zscore}

  free : (db : S) (t : ℕ) → exists db t keys.writer ≡ false → get db t keys.writer ≡ none
  free db t e = ground (arith, laws.strings.exists_lem db t keys.writer)

  grant-ReaderHolds :
      (t : ℕ) (u : Store S Z Q H) (seq : ℕ) (token : Text) (ttl now n : ℕ)
      → (try_read redis keys t u seq token ttl now).1 ≡ some n
      → ReaderHolds redis laws keys apart token
          (now + ttl)
          t
          (try_read redis keys t u seq token ttl now).0
  unfolding try_read leave_queue
  grant-ReaderHolds t u seq token ttl now n e = record {
    held = ground (arith, e, laws.sets.zscore-zadd u.sets keys.readers (now + ttl) token token);
    no_writer = ground (arith, e, free u.strings t);
  }

  -- A grant that is not the recovery of an earlier one establishes the invariant.
  pub read_grant-ReaderHolds :
      (t : ℕ) (s : Store S Z Q H) (token : Text) (ttl now timeout n : ℕ)
      → is_owned (zscore s.sets keys.readers token) now ≡ false
      → (rw_read_lock redis keys t s token ttl now timeout).1 ≡ some n
      → ReaderHolds redis laws keys apart token
          (now + ttl)
          t
          (rw_read_lock redis keys t s token ttl now timeout).0
  unfolding rw_read_lock
  read_grant-ReaderHolds t s token ttl now timeout n fresh e =
      let u = queued redis keys t s (reader_member token) now timeout in
      let granted : (try_read redis keys t u.0 u.1 token ttl now).1 ≡ some n =
        ground (arith, fresh, e) in
      let h = grant-ReaderHolds t u.0 u.1 token ttl now n granted in
      record {
        held = ground (arith, fresh, h.held);
        no_writer = ground (arith, fresh, h.no_writer);
      }

module _ {S Z Q H : Type 0} (redis : Server S Z Q H) where
  -- What the server does with the request of Acquire.
  abbrev pub locked : RwReader → Trip → Store S Z Q H → Store S Z Q H × Option ℕ
  locked r trip s =
      rw_read_lock redis r.keys trip.served s r.id (milliseconds r.ttl) (milliseconds trip.sent)
        (waiter_timeout r.ttl)

  pub acquired-success :
      (r : RwReader) (trip cleanup : Trip) (u : Store S Z Q H × Option ℕ) (d : Store S Z Q H)
      → let o = acquired redis r trip cleanup (arrive trip.fate d u) in
        o.2 ≡ []
        → (n : ℕ) × (u.1 ≡ some n)
          × (o.0 ≡ u.0)
          × (o.1 ≡ record r { expires_at = request_expiry trip.sent r.ttl })
  unfolding acquired arrive
  acquired-success r trip cleanup (u, none) d e = absurd (ground (arith, e))
  acquired-success r trip cleanup (u, some n) d e = (n, refl, ground (arith, e), ground (arith, e))

  -- A renewal whose request has been run: what it leaves of the database and of the lease.
  pub renewed_lease :
      (r : RwReader) (trip : Trip) (u : Store S Z Q H × Reply)
      → let o = renewed redis r trip u in
        (o.0 ≡ u.0)
        × (o.1.id ≡ r.id)
        × (o.1.keys ≡ r.keys)
        × (o.1.ttl ≡ r.ttl)
        × ((o.1.expires_at ≡ r.expires_at) ⊎ (o.1.expires_at ≡ request_expiry trip.sent r.ttl))
  unfolding renewed
  renewed_lease r trip (s, failed) = (refl, refl, refl, refl, inl refl)
  renewed_lease r trip (s, nil) = (refl, refl, refl, refl, inl refl)
  renewed_lease r trip (s, int n) =
      (ground arith, ground arith, ground arith, ground arith, ground arith)

  pub renewed_late :
      (r : RwReader) (trip : Trip) (u : Store S Z Q H × Reply)
      → r.expires_at ≤ trip.back
      → (renewed redis r trip u).1.expires_at ≡ r.expires_at
  unfolding renewed
  renewed_late r trip (s, failed) le = refl
  renewed_late r trip (s, nil) le = refl
  renewed_late r trip (s, int n) le = ground (arith, le)
