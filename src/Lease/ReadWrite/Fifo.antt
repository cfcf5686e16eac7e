-- ===== src/Lease/ReadWrite/Fifo.antt =====
-- The order in which the read-write lock serves its arrival queue.
use distsync.Common.{
  ℕ, ◌-◌, ◌<◌, ◌≡◌, ◌≢◌, ◌⊎◌, inl, inr, refl, sym, ap, ◌∙◌, true, false, Option, none, some, List,
  [], ◌∷◌, ◌++◌, ◌&&◌, Text, ltb, arith, Bool-cases, Option-cases, All,
}
use distsync.Redis.Waiting.{QueueLaws, HashLaws, first_of, members_below}
use distsync.Lease.ReadWrite.Scripts.{
  RwKeys, Server, Store, is_silent, is_first, is_owned, is_writer, has_writer, writer_member,
  reader_member, place, keep_alive, queued, try_write, try_read, rw_write_lock, rw_read_lock,
}
use distsync.Lease.ReadWrite.Queue.{drop_silent, range-purged}

-- What the purge takes off is silent.
drop_silent-append :
    (times : Text → Option ℕ) (limit : ℕ) (es : List (Text × ℕ))
    → (before : List (Text × ℕ)) × (es ≡ before ++ drop_silent times limit es)
      × All (λ e. is_silent (times e.0) limit ≡ true) before
unfolding drop_silent
drop_silent-append times limit [] = ([], refl, tt)
drop_silent-append times limit ((m, s) ∷ es) = elim (Bool-cases (is_silent (times m) limit)) [
  | inl e ↦
      let (before, q, silent) = drop_silent-append times limit es in
      ((m, s) ∷ before, rw e (ap (λ l. (m, s) ∷ l) q), (e, silent))
  | inr e ↦ ([], rw e refl, tt)
]

no_writer_below :
    (es : List (Text × ℕ)) (max : ℕ)
    → has_writer (members_below es max) ≡ false
    → All (λ e. (is_writer e.0 && ltb e.1 max) ≡ false) es
unfolding members_below has_writer
no_writer_below [] max h = tt
no_writer_below ((m, s) ∷ es) max h =
    (ground (arith, h), no_writer_below es max (ground (arith, h)))

module _ {S Z Q H : Type 0} (redis : Server S Z Q H) (queue_laws : QueueLaws redis.queues)
    (hash_laws : HashLaws redis.hashes) (keys : RwKeys) (t : ℕ) where
  open redis.strings use {get, exists, incr}
  open redis.queues use {range, head, below}
  open redis.hashes use {hget}

  module _ (s : Store S Z Q H) (token : Text) (ttl now timeout : ℕ) where
    -- The store after a contender took or refreshed its place.
    unfoldable pub joined : Text → Store S Z Q H
    joined member = keep_alive redis keys t (place redis keys t s member now).0 timeout

    unfoldable pub waiting : Text → List (Text × ℕ)
    waiting member = range (joined member).queue t keys.waiters

    unfoldable pub heard : Text → Text → Option ℕ
    heard member = hget (joined member).times t keys.waiter_ts

    pub range-queued :
        (member : Text)
        → range (queued redis keys t s member now timeout).0.queue t keys.waiters
          ≡ drop_silent (heard member) (now - timeout) (waiting member)
    unfolding queued joined waiting heard
    range-queued member =
        range-purged redis queue_laws hash_laws keys t (joined member) (now - timeout)

    try_write-first :
        (u : Store S Z Q H) (n : ℕ)
        → (try_write redis keys t u token ttl now).1 ≡ some n
        → is_first (head u.queue t keys.waiters) (writer_member token) ≡ true
    unfolding try_write
    try_write-first u n e = ground (arith, e)

    first-of :
        (es : List (Text × ℕ)) (member : Text)
        → is_first (first_of es) member ≡ true
        → (es ≡ []) ⊎ ((score : ℕ) × (rest : List (Text × ℕ)) × (es ≡ (member, score) ∷ rest))
    first-of [] member e = inl refl
    first-of ((m, k) ∷ es) member e = inr (k, es, ap (λ u. (u, k) ∷ es) (ground (arith, e)))

    -- A writer that is granted the lock, and did not hold it, was not overtaking: in the queue as it
    -- stands once it has joined, everybody before it has been silent for the waiter timeout.
    pub writer_in_order :
        (n : ℕ)
        → get s.strings t keys.writer ≢ some token
        → (rw_write_lock redis keys t s token ttl now timeout).1 ≡ some n
        → (before rest : List (Text × ℕ)) × (waiting (writer_member token) ≡ before ++ rest)
          × All (λ e. is_silent (heard (writer_member token) e.0) (now - timeout) ≡ true) before
          × ((rest ≡ [])
              ⊎ ((score : ℕ) × (behind : List (Text × ℕ)) × (rest
                    ≡ (writer_member token, score) ∷ behind)))
    unfolding rw_write_lock
    writer_in_order n other e =
        let member = writer_member token in
        let (before, split, silent) =
          drop_silent-append (heard member) (now - timeout) (waiting member) in
        let u = queued redis keys t s member now timeout in
        let granted : (try_write redis keys t u.0 token ttl now).1 ≡ some n =
          ground (arith, other, e) in
        let first = try_write-first u.0 n granted in
        let here =
          queue_laws.head_lem u.0.queue t keys.waiters ∙ ap first_of (range-queued member) in
        (
          before,
          drop_silent (heard member) (now - timeout) (waiting member),
          split,
          silent,
          first-of _ member (rw (← here) first),
        )

    try_read-no_writer :
        (u : Store S Z Q H) (seq n : ℕ)
        → (try_read redis keys t u seq token ttl now).1 ≡ some n
        → has_writer (below u.queue t keys.waiters seq) ≡ false
    unfolding try_read
    try_read-no_writer u seq n e = ground (arith, e)

    -- A reader that is granted the lock, and did not hold it, overtook no writer: in the queue as it
    -- stands once it has joined, from the first waiter on that has not been silent, no writer has a
    -- lower arrival number.
    pub reader_in_order :
        (n : ℕ)
        → is_owned (redis.sets.zscore s.sets keys.readers token) now ≡ false
        → (rw_read_lock redis keys t s token ttl now timeout).1 ≡ some n
        → let seq = (place redis keys t s (reader_member token) now).1 in
          (before rest : List (Text × ℕ)) × (waiting (reader_member token) ≡ before ++ rest)
          × All (λ e. is_silent (heard (reader_member token) e.0) (now - timeout) ≡ true) before
          × All (λ e. (is_writer e.0 && ltb e.1 seq) ≡ false) rest
    unfolding rw_read_lock queued
    reader_in_order n fresh e =
        let member = reader_member token in
        let seq = (place redis keys t s member now).1 in
        let (before, split, silent) =
          drop_silent-append (heard member) (now - timeout) (waiting member) in
        let u = queued redis keys t s member now timeout in
        let granted : (try_read redis keys t u.0 seq token ttl now).1 ≡ some n =
          ground (arith, fresh, e) in
        let here =
          queue_laws.below_lem u.0.queue t keys.waiters seq
          ∙ ap (λ l. members_below l seq) (range-queued member) in
        (
          before,
          drop_silent (heard member) (now - timeout) (waiting member),
          split,
          silent,
          no_writer_below _ seq (rw (← here) (try_read-no_writer u.0 seq n granted)),
        )

    -- A contender that waits keeps its place and its number at every attempt; a new one goes to the
    -- end with the next arrival number, if that is above the numbers in the queue.
    pub arrival_order :
        (member : Text)
        → 0 < timeout
        → All (λ e. e.1 < (incr s.strings t keys.seq).1) (range s.queue t keys.waiters)
        → let seq = (place redis keys t s member now).1 in
          ((redis.queues.zscore s.queue t keys.waiters member ≡ some seq)
            × (waiting member ≡ range s.queue t keys.waiters))
          ⊎ ((redis.queues.zscore s.queue t keys.waiters member ≡ none)
              × (waiting member ≡ range s.queue t keys.waiters ++ (member, seq) ∷ []))
    unfolding waiting joined place keep_alive
    arrival_order member pos h =
        let kept =
          queue_laws.range-pexpire (place redis keys t s member now).0.queue t keys.waiters timeout
            pos in
        elim (Option-cases (redis.queues.zscore s.queue t keys.waiters member)) [
          | inl e ↦
              let absent = sym (queue_laws.zscore_lem s.queue t keys.waiters member) ∙ e in
              let last =
                queue_laws.range-zadd_last s.queue t keys.waiters (incr s.strings t keys.seq).1
                  member absent h in
              inr (e, ground (arith, e, kept, last))
          | inr (k, e) ↦ inl (ground (arith, e), ground (arith, e, kept))
        ]
