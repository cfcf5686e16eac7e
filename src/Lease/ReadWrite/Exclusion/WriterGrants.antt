-- ===== src/Lease/ReadWrite/Exclusion/WriterGrants.antt =====
-- What a writer's grant and its renewals leave of the database and of the lease.
use distsync.Common.{
  ℕ, ◌+◌, ◌*◌, ◌≤◌, ◌≡◌, ◌≢◌, ◌⊎◌, inl, refl, subst, ◌∙◌, Option, none, some, [], Text, arith,
}
use distsync.Redis.{millisecond}
use distsync.Lease.Core.{milliseconds, request_expiry, Trip, Reply, int, nil, failed, arrive}
use distsync.Lease.ReadWrite.Writer.{RwWriter, waiter_timeout, acquired, renewed}
use distsync.Lease.ReadWrite.Scripts.{
  RwKeys, Server, Store, queued, writer_member, leave_queue, grant_write, try_write, rw_write_lock,
}
use distsync.Lease.ReadWrite.Exclusion.Frame.{IsApart, LockLaws}
use distsync.Lease.ReadWrite.Exclusion.WriterHolds.{WriterHolds}

module _ {S Z Q H : Type 0} (redis : Server S Z Q H) (laws : LockLaws redis) (keys : RwKeys)
    (apart : IsApart keys) where
  open redis.strings use {get, exists, incr, set_px}
  open redis.sets use {zcard}

  grant-WriterHolds :
      (t : ℕ) (s : Store S Z Q H) (token : Text) (ttl : ℕ)
      → zcard s.sets keys.readers ≡ 0
      → WriterHolds redis laws keys apart token t
          (t + ttl * millisecond)
          (grant_write redis keys t s token ttl).0
  unfolding grant_write leave_queue
  grant-WriterHolds t s token ttl e = record {
    held = λ t' le lt.
        laws.strings.get-incr_other (set_px s.strings t keys.writer token ttl) t t' keys.fencing
          keys.writer apart.fencing le
        ∙ laws.strings.get-set_px_before s.strings t t' keys.writer token ttl le lt;
    no_reader = e;
  }

  try_write-granted :
      (t : ℕ) (u : Store S Z Q H) (token : Text) (ttl now n : ℕ)
      → (try_write redis keys t u token ttl now).1 ≡ some n
      → let u' = record u { sets = redis.sets.zremrangebyscore u.sets keys.readers now } in
        ((try_write redis keys t u token ttl now).0 ≡ (grant_write redis keys t u' token ttl).0)
        × (zcard u'.sets keys.readers ≡ 0)
  unfolding try_write grant_write
  try_write-granted t u token ttl now n e = (ground (arith, e), ground (arith, e))

  -- A grant that is not the recovery of an earlier one establishes the invariant.
  pub write_grant-WriterHolds :
      (t : ℕ) (s : Store S Z Q H) (token : Text) (ttl now timeout n : ℕ)
      → get s.strings t keys.writer ≢ some token
      → (rw_write_lock redis keys t s token ttl now timeout).1 ≡ some n
      → WriterHolds redis laws keys apart token t
          (t + ttl * millisecond)
          (rw_write_lock redis keys t s token ttl now timeout).0
  unfolding rw_write_lock
  write_grant-WriterHolds t s token ttl now timeout n fresh e =
      let u = queued redis keys t s (writer_member token) now timeout in
      let u' = record u.0 { sets = redis.sets.zremrangebyscore u.0.sets keys.readers now } in
      let granted : (try_write redis keys t u.0 token ttl now).1 ≡ some n =
        ground (arith, fresh, e) in
      let (same, empty) = try_write-granted t u.0 token ttl now n granted in
      let here : (grant_write redis keys t u' token ttl).0
          ≡ (rw_write_lock redis keys t s token ttl now timeout).0 =
        ground (arith, fresh, same) in
      subst (WriterHolds redis laws keys apart token t (t + ttl * millisecond)) here
        (grant-WriterHolds t u' token ttl empty)

module _ {S Z Q H : Type 0} (redis : Server S Z Q H) where
  -- What the server does with the request of TryAcquire.
  abbrev pub locked : RwWriter → Trip → Store S Z Q H → Store S Z Q H × Option ℕ
  locked w trip s =
      rw_write_lock redis w.keys trip.served s w.id (milliseconds w.ttl) (milliseconds trip.sent)
        (waiter_timeout w.ttl)

  pub acquired-success :
      (w : RwWriter) (trip cleanup : Trip) (u : Store S Z Q H × Option ℕ) (d : Store S Z Q H)
      → let r = acquired redis w trip cleanup (arrive trip.fate d u) in
        r.3 ≡ []
        → (n : ℕ) × (u.1 ≡ some n)
          × (r.0 ≡ u.0)
          × (r.1 ≡ record w { expires_at = request_expiry trip.sent w.ttl })
  unfolding acquired arrive
  acquired-success w trip cleanup (u, none) d e = absurd (ground (arith, e))
  acquired-success w trip cleanup (u, some n) d e = (n, refl, ground (arith, e), ground (arith, e))

  -- A renewal whose request has been run: what it leaves of the database and of the lease.
  pub renewed_lease :
      (w : RwWriter) (trip : Trip) (u : Store S Z Q H × Reply)
      → let r = renewed redis w trip u in
        (r.0 ≡ u.0)
        × (r.1.id ≡ w.id)
        × (r.1.keys ≡ w.keys)
        × (r.1.ttl ≡ w.ttl)
        × ((r.1.expires_at ≡ w.expires_at) ⊎ (r.1.expires_at ≡ request_expiry trip.sent w.ttl))
  unfolding renewed
  renewed_lease w trip (s, failed) = (refl, refl, refl, refl, inl refl)
  renewed_lease w trip (s, nil) = (refl, refl, refl, refl, inl refl)
  renewed_lease w trip (s, int n) =
      (ground arith, ground arith, ground arith, ground arith, ground arith)

  pub renewed_late :
      (w : RwWriter) (trip : Trip) (u : Store S Z Q H × Reply)
      → w.expires_at ≤ trip.back
      → (renewed redis w trip u).1.expires_at ≡ w.expires_at
  unfolding renewed
  renewed_late w trip (s, failed) le = refl
  renewed_late w trip (s, nil) le = refl
  renewed_late w trip (s, int n) le = ground (arith, le)
