-- ===== src/Lease/PermitSet/Scripts.antt =====
-- internal/lua/sem_acquire.lua, sem_renew.lua and sem_release.lua. `now` is the client's time in
-- milliseconds, an argument of the script; a script returns the database and its reply.
use distsync.Common.{
  ℕ, ◌+◌, Bool, true, false, Option, none, some, List, [], ◌∷◌, ◌&&◌, Text, ltb, ◌==◌, length,
  if◌then◌else◌,
}
use distsync.Redis.{SortedSets, is_some}

module _ {Db : Type 0} (redis : SortedSets Db) where
  open redis use {zscore, zcard, zadd, zrem, zremrangebyscore}

  -- `for i = 4, #ARGV do if redis.call('ZSCORE', …) then owned = owned + 1 …`
  unfoldable pub count_owned : Db → Text → List Text → ℕ
  count_owned db key [] = 0
  count_owned db key (t ∷ ts) = (if is_some (zscore db key t) then 1 else 0) + count_owned db key ts

  -- `for … do redis.call('ZADD', zset, score, ARGV[i]) end`
  unfoldable pub add_all : Db → Text → ℕ → List Text → Db
  add_all db key score [] = db
  add_all db key score (t ∷ ts) = add_all (zadd db key score t) key score ts

  admit : Db → Text → ℕ → ℕ → List Text → Db × Option ℕ
  admit db key score capacity tokens =
      let used = zcard db key in
      let requested = length tokens in
      if count_owned db key tokens == requested
      then (db, some used)
      else if ltb capacity (used + requested)
      then (db, none)
      else (add_all db key score tokens, some (used + requested))

  unfoldable pub sem_acquire : Db → Text → ℕ → ℕ → ℕ → List Text → Db × Option ℕ
  unfolding admit
  sem_acquire db key now ttl capacity tokens =
      admit (zremrangebyscore db key now) key (now + ttl) capacity tokens

  abbrev pub is_live : ℕ → Option ℕ → Bool
  is_live now none = false
  is_live now (some s) = ltb now s

  -- The first loop of sem_renew.lua, which returns at the first permit that is gone or over.
  unfoldable pub all_live : Db → Text → ℕ → List Text → Bool
  all_live db key now [] = true
  all_live db key now (t ∷ ts) = is_live now (zscore db key t) && all_live db key now ts

  unfoldable pub sem_renew : Db → Text → ℕ → ℕ → List Text → Db × Option ℕ
  sem_renew db key now ttl tokens =
      if all_live db key now tokens
      then (add_all db key (now + ttl) tokens, some 1)
      else (db, some 0)

  unfoldable pub remove_all : Db → Text → ℕ → List Text → Db × ℕ
  remove_all db key removed [] = (db, removed)
  remove_all db key removed (t ∷ ts) =
      remove_all (zrem db key t).0 key (removed + (zrem db key t).1) ts

  unfoldable pub sem_release : Db → Text → List Text → Db × Option ℕ
  unfolding remove_all
  sem_release db key tokens = let (db', removed) = remove_all db key 0 tokens in (db', some removed)
