-- ===== src/Lease/ReadWrite/Scripts.antt =====
-- internal/lua/rw_write_lock.lua and rw_read_lock.lua, each run by the server as one step at its time
-- `t`; `now` is the client's time in milliseconds. The six keys of a lock have different suffixes, so
-- what the scripts see of the database is the lock's strings, its set of readers, its queue and its
-- hash.
use distsync.Common.{
  ℕ, zero, suc, ◌+◌, ◌-◌, Bool, true, false, not, Option, none, some, List, [], ◌∷◌, ◌&&◌, ◌||◌,
  ite, Text, Text_discrete, Reply_discrete, ltb, ◌==◌, length, if◌then◌else◌,
}
use distsync.Redis.{Strings, SortedSets}
use distsync.Redis.Waiting.{Queues, Hashes}
use distsync.Lease.SingleOwner.Scripts.{number_in}

-- RWKeys
pub record RwKeys : Type 0 where
  pub writer : Text
  pub readers : Text
  pub fencing : Text
  pub waiters : Text
  pub waiter_ts : Text
  pub seq : Text

pub record Server (S Z Q H : Type 0) : Type 0 where
  pub strings : Strings S
  pub sets : SortedSets Z
  pub queues : Queues Q
  pub hashes : Hashes H

pub record Store (S Z Q H : Type 0) : Type 0 where
  pub strings : S
  pub sets : Z
  pub queue : Q
  pub times : H

-- `'W:' .. token`, `'R:' .. token`
unfoldable pub writer_member : Text → Text
writer_member token = b'W' ∷ b':' ∷ token

unfoldable pub reader_member : Text → Text
reader_member token = b'R' ∷ b':' ∷ token

-- `string.sub(m, 1, 2) == 'W:'`
unfoldable pub is_writer : Text → Bool
is_writer [] = false
is_writer (a ∷ []) = false
is_writer (a ∷ b ∷ m) = (a == b'W') && (b == b':')

-- The loop over `ahead`.
unfoldable pub has_writer : List Text → Bool
has_writer [] = false
has_writer (m ∷ ms) = is_writer m || has_writer ms

-- `ts and ts < now - waiterTimeout`
abbrev pub is_silent : Option ℕ → ℕ → Bool
is_silent none limit = false
is_silent (some ts) limit = ltb ts limit

-- `#head > 0 and head[1] ~= member`
abbrev pub is_first : Option Text → Text → Bool
is_first none member = true
is_first (some m) member = ite (Text_discrete m member) true false

-- `owned and tonumber(owned) > now`
abbrev pub is_owned : Option ℕ → ℕ → Bool
is_owned none now = false
is_owned (some score) now = ltb now score

module _ {S Z Q H : Type 0} (redis : Server S Z Q H) (keys : RwKeys) (t : ℕ) where
  open redis.strings use {get, exists, set_px, incr, pexpire}
  open redis.sets use {zscore, zcard, zadd, zremrangebyscore}
  open redis.queues use {head, below}
  open redis.hashes use {hget, hset, hdel, hpexpire}

  -- Joining the arrival queue, or refreshing the place in it; returns the arrival number.
  unfoldable pub place : Store S Z Q H → Text → ℕ → Store S Z Q H × ℕ
  place s member now = elim (redis.queues.zscore s.queue t keys.waiters member) [
    | none ↦
        let (strings, seq) = incr s.strings t keys.seq in
        (
          record s {
            strings = strings;
            queue = redis.queues.zadd s.queue t keys.waiters seq member;
            times = hset s.times t keys.waiter_ts member now;
          },
          seq,
        )
    | some seq ↦ (record s { times = hset s.times t keys.waiter_ts member now }, seq)
  ]

  -- The three PEXPIRE
  unfoldable pub keep_alive : Store S Z Q H → ℕ → Store S Z Q H
  keep_alive s waiter_timeout = record s {
    strings = pexpire s.strings t keys.seq waiter_timeout;
    queue = redis.queues.pexpire s.queue t keys.waiters waiter_timeout;
    times = hpexpire s.times t keys.waiter_ts waiter_timeout;
  }

  -- The loop that purges crashed waiters from the head, in at most `fuel` rounds.
  unfoldable pub purge_heads : ℕ → Q × H → ℕ → Q × H
  purge_heads zero (q, h) limit = (q, h)
  purge_heads (suc fuel) (q, h) limit = elim (head q t keys.waiters) [
    | none ↦ (q, h)
    | some m ↦ elim (is_silent (hget h t keys.waiter_ts m) limit) [
      | true ↦
          purge_heads fuel (redis.queues.zrem q t keys.waiters m, hdel h t keys.waiter_ts m) limit
      | false ↦ (q, h)
    ]
  ]

  -- One round for each waiter, and one to find that none is left.
  unfoldable pub purged : Store S Z Q H → ℕ → Store S Z Q H
  unfolding purge_heads
  purged s limit =
      let (q, h) =
        purge_heads (suc (length (redis.queues.range s.queue t keys.waiters))) (s.queue, s.times)
          limit in
      record s { queue = q; times = h }

  -- What both scripts do before they look at the lock.
  unfoldable pub queued : Store S Z Q H → Text → ℕ → ℕ → Store S Z Q H × ℕ
  unfolding place keep_alive purged
  queued s member now waiter_timeout =
      let (s', seq) = place s member now in
      (purged (keep_alive s' waiter_timeout) (now - waiter_timeout), seq)

  unfoldable pub leave_queue : Store S Z Q H → Text → Store S Z Q H
  leave_queue s member = record s {
    queue = redis.queues.zrem s.queue t keys.waiters member;
    times = hdel s.times t keys.waiter_ts member;
  }

  -- The grant to a writer
  unfoldable pub grant_write : Store S Z Q H → Text → ℕ → Store S Z Q H × Option ℕ
  unfolding leave_queue
  grant_write s token ttl =
      let s' =
        leave_queue (record s { strings = set_px s.strings t keys.writer token ttl })
          (writer_member token) in
      let (strings, n) = incr s'.strings t keys.fencing in (record s' { strings = strings }, some n)

  -- No active writer, no active readers.
  unfoldable pub try_write : Store S Z Q H → Text → ℕ → ℕ → Store S Z Q H × Option ℕ
  unfolding grant_write
  try_write s token ttl now =
      if not (is_first (head s.queue t keys.waiters) (writer_member token))
      then (s, none)
      else if exists s.strings t keys.writer
      then (s, none)
      else (let s' = record s { sets = zremrangebyscore s.sets keys.readers now } in
          if ltb 0 (zcard s'.sets keys.readers) then (s', none) else grant_write s' token ttl)

  unfoldable pub rw_write_lock : Store S Z Q H → Text → ℕ → ℕ → ℕ → Store S Z Q H × Option ℕ
  unfolding queued try_write
  rw_write_lock s token ttl now waiter_timeout =
      ite (Reply_discrete (get s.strings t keys.writer) (some token))
        (s, number_in (get s.strings t keys.fencing))
        (let (s', seq) = queued s (writer_member token) now waiter_timeout in
          try_write s' token ttl now)

  unfoldable pub try_read : Store S Z Q H → ℕ → Text → ℕ → ℕ → Store S Z Q H × Option ℕ
  unfolding leave_queue
  try_read s seq token ttl now =
      if exists s.strings t keys.writer
      then (s, none)
      else if has_writer (below s.queue t keys.waiters seq)
      then (s, none)
      else (
        leave_queue (record s { sets = zadd s.sets keys.readers (now + ttl) token })
            (reader_member token),
        some 1,
      )

  unfoldable pub rw_read_lock : Store S Z Q H → Text → ℕ → ℕ → ℕ → Store S Z Q H × Option ℕ
  unfolding queued try_read
  rw_read_lock s token ttl now waiter_timeout =
      if is_owned (zscore s.sets keys.readers token) now
      then (s, some 1)
      else (let (s', seq) = queued s (reader_member token) now waiter_timeout in
          try_read s' seq token ttl now)
