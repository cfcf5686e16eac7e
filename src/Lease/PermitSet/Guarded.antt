-- ===== src/Lease/PermitSet/Guarded.antt =====
-- PermitSet as a guard sees it: it fills the interface of leases. One fate
-- stands for all the reads of `Held`.
use distsync.Common.{◌<◌, ◌≤◌, ◌≡◌, ◌⊎◌, inl, inr, refl, [], ◌∷◌, arith, map, List-cases}
use native.Mathlib.Nat.{le_refl}
use distsync.Redis.{SortedSets}
use distsync.Lease.Core.{lost, Trip, transmit, Reply, int, nil, failed, milliseconds}
use distsync.Lease.Interface.{Methods, MethodLaws}
use distsync.Lease.PermitSet.Scripts.{sem_renew}
use distsync.Lease.PermitSet.{PermitSet, extend, renewed, renew, release, held}

module _ {Db : Type 0} (redis : SortedSets Db) where
  unfoldable pub permit_set : Methods Db PermitSet
  permit_set = record {
    expires_at = λ l. l.expires_at;
    renew = λ l trip db. let r = renew redis l trip db in (r.db, r.lease, r.error);
    release = λ l trip db. let r = release redis l trip db in (r.db, r.lease, r.error);
    held = λ p trip db. held redis p trip.sent (map (λ t. trip.fate) p.tokens) db;
  }

  module _ (l : PermitSet) (trip : Trip) where
    renewed-later : (r : Db × Reply) → l.expires_at ≤ (renewed redis l trip r).lease.expires_at
    unfolding renewed extend
    renewed-later (db, failed) = le_refl _
    renewed-later (db, nil) = le_refl _
    renewed-later (db, int n) = ground arith

    renewed-valid :
        (r : Db × Reply)
        → (renewed redis l trip r).error ≡ []
        → trip.back < (renewed redis l trip r).lease.expires_at
    unfolding renewed extend
    renewed-valid (db, failed) e = ground arith
    renewed-valid (db, nil) e = ground arith
    renewed-valid (db, int n) e = ground arith

  script : PermitSet → Trip → Db → Db × Reply
  script p trip db =
      transmit trip
        (λ d now. sem_renew redis d p.key (milliseconds trip.sent) (milliseconds p.ttl) p.tokens) db

  renew-cases :
      (p : PermitSet) (trip : Trip) (db : Db)
      → (renew redis p trip db ≡ record { db = db; lease = p; error = lost ∷ [] })
        ⊎ (renew redis p trip db ≡ renewed redis p trip (script p trip db))
  unfolding renew script
  renew-cases p trip db = elim (List-cases p.tokens) [
    | inl e ↦ inl (rw e refl)
    | inr (t, ts, e) ↦ inr (rw e refl)
  ]

  -- A renewal never moves the deadline back, and returns nil only while the lease is valid.
  pub permit_set_laws : MethodLaws permit_set
  unfolding permit_set
  permit_set_laws = record {
    renew-later = λ p trip db. elim (renew-cases p trip db) [
      | inl q ↦ rw q (le_refl _)
      | inr q ↦ rw q (renewed-later p trip (script p trip db))
    ];
    renew-valid = λ p trip db e. elim (renew-cases p trip db) [
      | inl q ↦ ground (arith, q, e)
      | inr q ↦ rw q (renewed-valid p trip (script p trip db) (rw (← q) e))
    ];
  }
