-- ===== src/Lease/Core.antt =====
-- internal/lease/lease.go: what the leases share. A Go error is the list of the sentinels that
-- `errors.Is` finds in it, the empty list for nil. Times and durations are in nanoseconds, and the
-- zero time is 0; all clocks are one clock.
use distsync.Common.{ℕ, ◌+◌, ◌-◌, ◌/◌, Bool, true, false, Option, none, some, List, [], ◌∷◌, ◌||◌}
use distsync.Redis.{millisecond}

-- The errors of internal/lease/lease.go and errors.go, and those that come from outside: of the
-- transport or the server, and of a context.
pub data Sentinel : Type 0 where
  busy lost not_acquired leadership_lost transport canceled invalid : Sentinel

abbrev pub Error : Type 0
Error = List Sentinel

same : Sentinel → Sentinel → Bool
same busy busy = true
same lost lost = true
same not_acquired not_acquired = true
same leadership_lost leadership_lost = true
same transport transport = true
same canceled canceled = true
same invalid invalid = true
same _ _ = false

-- errors.Is
unfoldable pub is_error : Error → Sentinel → Bool
unfolding same
is_error [] s = false
is_error (e ∷ es) s = same e s || is_error es s

-- One call of the server: when its request was made, when the server ran it, when the reply was
-- read, and what became of it.
pub data Fate : Type 0 where
  delivered reply_lost request_lost : Fate

pub record Trip : Type 0 where
  pub sent : ℕ
  pub served : ℕ
  pub back : ℕ
  pub fate : Fate

-- A script's reply, or its absence: `nil` is redis.Nil.
pub data Reply : Type 0 where
  int : ℕ → Reply
  nil : Reply
  failed : Reply

abbrev pub reply_of : Option ℕ → Reply
reply_of none = nil
reply_of (some n) = int n

module _ {Db : Type 0} where
  unfoldable pub arrive : Fate → Db → Db × Option ℕ → Db × Reply
  arrive delivered db (db', r) = (db', reply_of r)
  arrive reply_lost db (db', r) = (db', failed)
  arrive request_lost db r = (db, failed)

  -- `script.Run(…).Int64()`
  unfoldable pub transmit : Trip → (Db → ℕ → Db × Option ℕ) → Db → Db × Reply
  unfolding arrive
  transmit trip script db = arrive trip.fate db (script db trip.served)

-- The local deadline counts from before the request, less 1% and a millisecond. (At a start after
-- the first millisecond of the epoch, where the subtraction on ℕ is Go's.)
unfoldable pub request_expiry : ℕ → ℕ → ℕ
request_expiry start ttl = start + (ttl - ttl / 100) - millisecond

-- ttl.Milliseconds(), t.UnixMilli()
unfoldable pub milliseconds : ℕ → ℕ
milliseconds ttl = ttl / millisecond
