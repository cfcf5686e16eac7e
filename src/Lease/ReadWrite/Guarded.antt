-- ===== src/Lease/ReadWrite/Guarded.antt =====
-- RWWriter and RWReader as a guard sees them: they fill the interface of leases.
use distsync.Common.{◌<◌, ◌≤◌, ◌≡◌, [], arith}
use native.Mathlib.Nat.{le_refl}
use distsync.Lease.Core.{Trip, transmit, Reply, int, nil, failed, milliseconds}
use distsync.Lease.Interface.{MethodLaws}
use distsync.Lease.ReadWrite.Scripts.{Server, Store}
use distsync.Lease.ReadWrite.Writer as Writer
use distsync.Lease.ReadWrite.Reader as Reader

module _ {S Z Q H : Type 0} (redis : Server S Z Q H) where
  module _ (w : Writer.RwWriter) (trip : Trip) where
    writer-later :
        (r : Store S Z Q H × Reply) → w.expires_at ≤ (Writer.renewed redis w trip r).1.expires_at
    unfolding Writer.renewed
    writer-later (s, failed) = le_refl _
    writer-later (s, nil) = le_refl _
    writer-later (s, int n) = ground arith

    writer-valid :
        (r : Store S Z Q H × Reply)
        → (Writer.renewed redis w trip r).3 ≡ []
        → trip.back < (Writer.renewed redis w trip r).1.expires_at
    unfolding Writer.renewed
    writer-valid (s, failed) e = ground arith
    writer-valid (s, nil) e = ground arith
    writer-valid (s, int n) e = ground arith

  module _ (l : Reader.RwReader) (trip : Trip) where
    reader-later :
        (r : Store S Z Q H × Reply) → l.expires_at ≤ (Reader.renewed redis l trip r).1.expires_at
    unfolding Reader.renewed
    reader-later (s, failed) = le_refl _
    reader-later (s, nil) = le_refl _
    reader-later (s, int n) = ground arith

    reader-valid :
        (r : Store S Z Q H × Reply)
        → (Reader.renewed redis l trip r).2 ≡ []
        → trip.back < (Reader.renewed redis l trip r).1.expires_at
    unfolding Reader.renewed
    reader-valid (s, failed) e = ground arith
    reader-valid (s, nil) e = ground arith
    reader-valid (s, int n) e = ground arith

  -- A renewal never moves the deadline back, and returns nil only while the lease is valid.
  pub rw_laws : MethodLaws (Writer.rw_writer redis) × MethodLaws (Reader.rw_reader redis)
  unfolding Writer.rw_writer Reader.rw_reader Writer.renew Reader.renew
  rw_laws = (
    record {
      renew-later = λ w trip s.
          writer-later w trip
            (transmit trip (Writer.renew_writer redis w.keys w.id (milliseconds w.ttl)) s);
      renew-valid = λ w trip s e.
          writer-valid w trip
            (transmit trip (Writer.renew_writer redis w.keys w.id (milliseconds w.ttl)) s) e;
    },
    record {
      renew-later = λ l trip s. reader-later l trip (
          transmit trip
            (λ d t.
              Reader.renew_reader redis l.keys l.id (milliseconds trip.sent) (milliseconds l.ttl) d)
            s);
      renew-valid = λ l trip s e.
          reader-valid l trip
            (transmit trip
              (λ d t.
                Reader.renew_reader redis l.keys l.id (milliseconds trip.sent) (milliseconds l.ttl)
                  d)
              s)
            e;
    },
  )
