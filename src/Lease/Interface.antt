-- ===== src/Lease/Interface.antt =====
-- The interface `Lease` of internal/lease/lease.go: what guards and renewers use of a lease. A method
-- returns the database and the lease after it, and its error.
use distsync.Common.{ℕ, ◌<◌, ◌≤◌, ◌≡◌, Bool, Option, []}
use distsync.Lease.Core.{Error, Trip}

pub record Methods (Db L : Type 0) : Type 0 where
  pub expires_at : L → ℕ
  pub renew : L → Trip → Db → Db × L × Error
  pub release : L → Trip → Db → Db × L × Error
  pub held : L → Trip → Db → Option Bool  -- `none` for a transport error

module _ {Db L : Type 0} (methods : Methods Db L) where
  open methods use {expires_at, renew}

  -- What a guard relies on: a renewal never shortens the lease, and reports success only while the
  -- lease is valid.
  pub record MethodLaws : Type 0 where
    pub renew-later :
        (l : L) (trip : Trip) (db : Db) → expires_at l ≤ expires_at (renew l trip db).1
    pub renew-valid :
        (l : L) (trip : Trip) (db : Db)
        → (renew l trip db).2 ≡ []
        → trip.back < expires_at (renew l trip db).1
