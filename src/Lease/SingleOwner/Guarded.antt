-- ===== src/Lease/SingleOwner/Guarded.antt =====
-- SingleOwner as a guard sees it: it fills the interface of leases.
use distsync.Common.{◌<◌, ◌≤◌, ◌≡◌, [], arith}
use native.Mathlib.Nat.{le_refl}
use distsync.Redis.{Strings}
use distsync.Lease.Core.{Trip, transmit, Reply, int, nil, failed, milliseconds}
use distsync.Lease.Interface.{Methods, MethodLaws}
use distsync.Lease.SingleOwner.Scripts.{single_renew}
use distsync.Lease.SingleOwner.{SingleOwner, extend, renewed, renew, release, held}

module _ {Db : Type 0} (redis : Strings Db) where
  unfoldable pub single_owner : Methods Db SingleOwner
  single_owner = record {
    expires_at = λ l. l.expires_at;
    renew = λ l trip db. let r = renew redis l trip db in (r.db, r.lease, r.error);
    release = λ l trip db. let r = release redis l trip db in (r.db, r.lease, r.error);
    held = held redis;
  }

  module _ (l : SingleOwner) (trip : Trip) where
    renewed-later : (r : Db × Reply) → l.expires_at ≤ (renewed redis l trip r).lease.expires_at
    unfolding renewed extend
    renewed-later (db, failed) = le_refl _
    renewed-later (db, nil) = le_refl _
    renewed-later (db, int n) = ground arith

    renewed-valid :
        (r : Db × Reply)
        → (renewed redis l trip r).error ≡ []
        → trip.back < (renewed redis l trip r).lease.expires_at
    unfolding renewed extend
    renewed-valid (db, failed) e = ground arith
    renewed-valid (db, nil) e = ground arith
    renewed-valid (db, int n) e = ground arith

  -- A renewal never moves the deadline back, and returns nil only while the lease is valid.
  pub single_owner_laws : MethodLaws single_owner
  unfolding single_owner renew
  single_owner_laws = record {
    renew-later = λ l trip db.
        renewed-later l trip
          (transmit trip (λ d now. single_renew redis d now l.key l.id (milliseconds l.ttl)) db);
    renew-valid = λ l trip db e.
        renewed-valid l trip
          (transmit trip (λ d now. single_renew redis d now l.key l.id (milliseconds l.ttl)) db) e;
  }
