-- ===== src/Lease/PermitSet/Within.antt =====
-- A whole TryAcquire keeps a semaphore within its capacity, whatever becomes of its requests.
use distsync.Common.{
  ℕ, zero, suc, ◌≤◌, ◌≡◌, inl, inr, refl, Option, List, ◌∷◌, Text, arith, List-cases,
}
use native.Mathlib.Nat.{le_trans}
use distsync.Redis.{SortedSets, SortedSetLaws}
use distsync.Lease.Core.{
  Trip, Fate, delivered, reply_lost, request_lost, transmit, arrive, Reply, int, nil, failed,
  milliseconds,
}
use distsync.Lease.PermitSet.{
  PermitSet, tokens_from, acquired, released, release, discard_late_grant, try_acquire,
}
use distsync.Lease.PermitSet.Scripts.{sem_acquire, sem_release}
use distsync.Lease.PermitSet.Capacity.{acquire-zcard, release-zcard}

module _ {Db : Type 0} (redis : SortedSets Db) (laws : SortedSetLaws redis) where
  open redis use {zcard}

  arrive-zcard :
      (f : Fate) (db : Db) (r : Db × Option ℕ) (key : Text) (bound : ℕ)
      → zcard db key ≤ bound
      → zcard r.0 key ≤ bound
      → zcard (arrive f db r).0 key ≤ bound
  unfolding arrive
  arrive-zcard delivered db r key bound h h' = h'
  arrive-zcard reply_lost db r key bound h h' = h'
  arrive-zcard request_lost db r key bound h h' = h

  released-db : (p : PermitSet) (r : Db × Reply) → (released redis p r).db ≡ r.0
  unfolding released
  released-db p (db, failed) = refl
  released-db p (db, nil) = refl
  released-db p (db, int n) = refl

  release-zcard_within :
      (p : PermitSet) (trip : Trip) (db : Db) (bound : ℕ)
      → zcard db p.key ≤ bound
      → zcard (release redis p trip db).db p.key ≤ bound
  unfolding release transmit
  release-zcard_within p trip db bound h = elim (List-cases p.tokens) [
    | inl e ↦ ground (arith, e)
    | inr (t, ts, e) ↦
        let sent =
          arrive-zcard trip.fate db (sem_release redis db p.key (t ∷ ts)) p.key bound h
            (le_trans (release-zcard redis laws db p.key (t ∷ ts)) h) in
        let same = released-db p (arrive trip.fate db (sem_release redis db p.key (t ∷ ts))) in
        ground (arith, e, sent, same)
  ]

  acquired-zcard :
      (p : PermitSet) (ts : List Text) (trip cleanup : Trip) (r : Db × Reply) (bound : ℕ)
      → zcard r.0 p.key ≤ bound
      → zcard (acquired redis p ts trip cleanup r).db p.key ≤ bound
  unfolding acquired discard_late_grant
  acquired-zcard p ts trip cleanup (db, failed) bound h = h
  acquired-zcard p ts trip cleanup (db, nil) bound h = h
  acquired-zcard p ts trip cleanup (db, int n) bound h =
      ground (arith, release-zcard_within (record p { tokens = ts }) cleanup db bound h)

  pub try_acquire-zcard :
      (p : PermitSet) (n : ℕ) (trip cleanup : Trip) (db : Db)
      → zcard db p.key ≤ p.capacity
      → zcard (try_acquire redis p n trip cleanup db).db p.key ≤ p.capacity
  unfolding try_acquire transmit
  try_acquire-zcard p zero trip cleanup db h = h
  try_acquire-zcard p (suc n) trip cleanup db h =
      acquired-zcard p (tokens_from p.id 0 (suc n)) trip cleanup _ p.capacity (
        arrive-zcard trip.fate db _ p.key p.capacity h (
          acquire-zcard redis laws db p.key (milliseconds trip.sent) (milliseconds p.ttl) p.capacity
            (tokens_from p.id 0 (suc n)) h))

  -- TryAcquire never changes what the lease is for.
  IsFor : PermitSet → Text → ℕ → Type 0
  IsFor p key capacity = (p.key ≡ key) × (p.capacity ≡ capacity)

  released-IsFor :
      (p : PermitSet) (r : Db × Reply) → IsFor (released redis p r).lease p.key p.capacity
  unfolding released IsFor
  released-IsFor p (db, failed) = (refl, refl)
  released-IsFor p (db, nil) = (refl, refl)
  released-IsFor p (db, int n) = (refl, refl)

  release-IsFor :
      (p : PermitSet) (trip : Trip) (db : Db)
      → IsFor (release redis p trip db).lease p.key p.capacity
  unfolding release IsFor
  release-IsFor p trip db = elim (List-cases p.tokens) [
    | inl e ↦ (ground (arith, e), ground (arith, e))
    | inr (t, ts, e) ↦
        let (k, c) =
          released-IsFor p (transmit trip (λ d _. sem_release redis d p.key (t ∷ ts)) db) in
        (ground (arith, e, k), ground (arith, e, c))
  ]

  acquired-IsFor :
      (p : PermitSet) (ts : List Text) (trip cleanup : Trip) (r : Db × Reply)
      → IsFor (acquired redis p ts trip cleanup r).lease p.key p.capacity
  unfolding acquired discard_late_grant IsFor
  acquired-IsFor p ts trip cleanup (db, failed) = (refl, refl)
  acquired-IsFor p ts trip cleanup (db, nil) = (refl, refl)
  acquired-IsFor p ts trip cleanup (db, int n) =
      let (k, c) = release-IsFor (record p { tokens = ts }) cleanup db in
      (ground (arith, k), ground (arith, c))

  pub try_acquire-same :
      (p : PermitSet) (n : ℕ) (trip cleanup : Trip) (db : Db)
      → ((try_acquire redis p n trip cleanup db).lease.key ≡ p.key)
        × ((try_acquire redis p n trip cleanup db).lease.capacity ≡ p.capacity)
  unfolding try_acquire IsFor
  try_acquire-same p zero trip cleanup db = (refl, refl)
  try_acquire-same p (suc n) trip cleanup db =
      acquired-IsFor p (tokens_from p.id 0 (suc n)) trip cleanup (
        transmit trip
          (λ d _.
            sem_acquire redis d p.key (milliseconds trip.sent) (milliseconds p.ttl) p.capacity
              (tokens_from p.id 0 (suc n)))
          db)
