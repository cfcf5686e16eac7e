-- ===== src/Redis/Commands.antt =====
-- The server, as the code under internal/ uses it: the commands of its scripts and of go-redis, and
-- what the Redis manual says of them. Redis is not part of the repository, so both are parameters.
-- A database holds what is stored with the time at which it lapses, so a reading takes the server's
-- time, in nanoseconds; timeouts (PX, PEXPIRE) are given in milliseconds. A name is used for values
-- of one type only, so that no command meets a value of the wrong type.
use distsync.Common.{
  ℕ, ◌+◌, ◌*◌, ◌≤◌, ◌<◌, ◌≡◌, ◌≢◌, Bool, true, false, Option, none, some, List, length, Text, leb,
  if◌then◌else◌, ite, Text_discrete,
}
use distsync.Common.Decimal.{decimal}
use mathlib.Core.List.{Nodup, Mem}

-- time.Millisecond, in the unit of time.Duration.
abbrev pub millisecond : ℕ
millisecond = 1_000_000

abbrev pub is_some {ℓ} : {A : Type ℓ} → Option A → Bool
is_some none = false
is_some (some a) = true

-- Commands on strings. A command that may write returns the database after it first.
pub record Strings (Db : Type 0) : Type 0 where
  pub get : Db → ℕ → Text → Option Text  -- GET key
  pub exists : Db → ℕ → Text → Bool  -- EXISTS key
  pub set_px : Db → ℕ → Text → Text → ℕ → Db  -- SET key value PX ms
  pub set_nx_px : Db → ℕ → Text → Text → ℕ → Option Db  -- SET key value NX PX ms; `none` for nil
  pub pexpire : Db → ℕ → Text → ℕ → Db  -- PEXPIRE key ms
  pub del : Db → ℕ → Text → Db × ℕ  -- DEL key
  pub incr : Db → ℕ → Text → Db × ℕ  -- INCR key

module _ {Db : Type 0} (redis : Strings Db) where
  open redis use {get, exists, set_px, set_nx_px, pexpire, del, incr}

  pub record StringLaws : Type 0 where
    -- What a key holds later with no command in between, it holds already; so a lapsed key stays so.
    pub get_earlier :
        (db : Db) (k : Text) (t t' : ℕ) (v : Text)
        → t ≤ t'
        → get db t' k ≡ some v
        → get db t k ≡ some v
    pub exists_lem : (db : Db) (t : ℕ) (k : Text) → exists db t k ≡ is_some (get db t k)
    -- A value set with a timeout is there until it ends, and gone a millisecond later at the latest.
    pub get-set_px_before :
        (db : Db) (t t' : ℕ) (k v : Text) (ms : ℕ)
        → t ≤ t'
        → t' < t + ms * millisecond
        → get (set_px db t k v ms) t' k ≡ some v
    pub get-set_px_after :
        (db : Db) (t t' : ℕ) (k v : Text) (ms : ℕ)
        → t + ms * millisecond + millisecond ≤ t'
        → get (set_px db t k v ms) t' k ≡ none
    pub get-set_px_other :
        (db : Db) (t t' : ℕ) (k v : Text) (ms : ℕ) (k' : Text)
        → k ≢ k'
        → t ≤ t'
        → get (set_px db t k v ms) t' k' ≡ get db t' k'
    -- NX: only if the key does not exist.
    pub set_nx_px_lem :
        (db : Db) (t : ℕ) (k v : Text) (ms : ℕ)
        → set_nx_px db t k v ms ≡ (if exists db t k then none else some (set_px db t k v ms))
    -- PEXPIRE replaces the timeout of a key that exists.
    pub get-pexpire_before :
        (db : Db) (t t' : ℕ) (k v : Text) (ms : ℕ)
        → get db t k ≡ some v
        → t ≤ t'
        → t' < t + ms * millisecond
        → get (pexpire db t k ms) t' k ≡ some v
    pub get-pexpire_after :
        (db : Db) (t t' : ℕ) (k : Text) (ms : ℕ)
        → t + ms * millisecond + millisecond ≤ t'
        → get (pexpire db t k ms) t' k ≡ none
    pub get-pexpire_other :
        (db : Db) (t t' : ℕ) (k : Text) (ms : ℕ) (k' : Text)
        → k ≢ k'
        → t ≤ t'
        → get (pexpire db t k ms) t' k' ≡ get db t' k'
    -- DEL returns the number of keys that it removed.
    pub del-count : (db : Db) (t : ℕ) (k : Text) → (del db t k).1 ≡ (if exists db t k then 1 else 0)
    pub get-del : (db : Db) (t t' : ℕ) (k : Text) → t ≤ t' → get (del db t k).0 t' k ≡ none
    pub get-del_other :
        (db : Db) (t t' : ℕ) (k k' : Text)
        → k ≢ k'
        → t ≤ t'
        → get (del db t k).0 t' k' ≡ get db t' k'
    -- INCR starts a missing counter at 0, with no timeout, and leaves the timeout of another alone.
    pub incr-fresh : (db : Db) (t : ℕ) (k : Text) → get db t k ≡ none → (incr db t k).1 ≡ 1
    pub get-incr_fresh :
        (db : Db) (t t' : ℕ) (k : Text)
        → get db t k ≡ none
        → t ≤ t'
        → get (incr db t k).0 t' k ≡ some (decimal 1)
    pub incr-counter :
        (db : Db) (t : ℕ) (k : Text) (n : ℕ)
        → get db t k ≡ some (decimal n)
        → (incr db t k).1 ≡ n + 1
    pub get-incr_counter :
        (db : Db) (t t' : ℕ) (k : Text) (n : ℕ)
        → t ≤ t'
        → get db t' k ≡ some (decimal n)
        → get (incr db t k).0 t' k ≡ some (decimal (n + 1))
    pub get-incr_other :
        (db : Db) (t t' : ℕ) (k k' : Text)
        → k ≢ k'
        → t ≤ t'
        → get (incr db t k).0 t' k' ≡ get db t' k'

-- Commands on sorted sets: members with a score each.
pub record SortedSets (Db : Type 0) : Type 0 where
  pub zscore : Db → Text → Text → Option ℕ  -- ZSCORE key member
  pub zcard : Db → Text → ℕ  -- ZCARD key
  pub zadd : Db → Text → ℕ → Text → Db  -- ZADD key score member
  pub zrem : Db → Text → Text → Db × ℕ  -- ZREM key member
  pub zremrangebyscore : Db → Text → ℕ → Db  -- ZREMRANGEBYSCORE key -inf max

-- A score that a purge up to `max` leaves.
abbrev pub above : ℕ → Option ℕ → Option ℕ
above max none = none
above max (some s) = if leb s max then none else some s

-- For keys that carry no timeout, such as those of semaphores.
module _ {Db : Type 0} (redis : SortedSets Db) where
  open redis use {zscore, zcard, zadd, zrem, zremrangebyscore}

  pub record SortedSetLaws : Type 0 where
    pub zscore-zadd :
        (db : Db) (k : Text) (s : ℕ) (m m' : Text)
        → zscore (zadd db k s m) k m' ≡ ite (Text_discrete m m') (some s) (zscore db k m')
    pub zscore-zrem :
        (db : Db) (k m m' : Text)
        → zscore (zrem db k m).0 k m' ≡ ite (Text_discrete m m') none (zscore db k m')
    pub zrem-count :
        (db : Db) (k m : Text) → (zrem db k m).1 ≡ (if is_some (zscore db k m) then 1 else 0)
    pub zscore-zremrangebyscore :
        (db : Db) (k : Text) (max : ℕ) (m : Text)
        → zscore (zremrangebyscore db k max) k m ≡ above max (zscore db k m)
    -- ZCARD is the number of members.
    pub zcard-zadd :
        (db : Db) (k : Text) (s : ℕ) (m : Text)
        → zcard (zadd db k s m) k ≡ zcard db k + (if is_some (zscore db k m) then 0 else 1)
    pub zcard-zrem : (db : Db) (k m : Text) → zcard (zrem db k m).0 k + (zrem db k m).1 ≡ zcard db k
    pub zcard-zremrangebyscore :
        (db : Db) (k : Text) (max : ℕ) → zcard (zremrangebyscore db k max) k ≤ zcard db k
    pub zcard_bound :
        (db : Db) (k : Text) (ms : List Text)
        → Nodup ms
        → ((m : Text) → Mem m ms → is_some (zscore db k m) ≡ true)
        → length ms ≤ zcard db k
