-- ===== src/Lease/ReadWrite/Queue.antt =====
-- What the scripts of the read-write lock do to the arrival queue.
use distsync.Common.{
  ℕ, zero, suc, ◌<◌, ◌≡◌, refl, ap, subst, ◌∙◌, Option, none, List, [], ◌∷◌, Text, length,
  if◌then◌else◌, arith,
}
use distsync.Redis.Waiting.{
  QueueLaws, Hashes, HashLaws, score_in, first_of, without, without-absent, Distinct,
}
use distsync.Lease.ReadWrite.Scripts.{RwKeys, Server, Store, is_silent, purge_heads, purged}

-- The entries from the first one on that is not silent.
unfoldable pub drop_silent : (Text → Option ℕ) → ℕ → List (Text × ℕ) → List (Text × ℕ)
drop_silent times limit [] = []
drop_silent times limit ((m, s) ∷ es) =
    let rest = drop_silent times limit es in if is_silent (times m) limit then rest else (m, s) ∷ es

without-first :
    (m : Text) (s : ℕ) (es : List (Text × ℕ)) → score_in es m ≡ none → without ((m, s) ∷ es) m ≡ es
unfolding without
without-first m s es h = ground (arith, without-absent es m h)

module _ {H : Type 0} (hashes : Hashes H) (laws : HashLaws hashes) (t : ℕ) (key : Text) where
  open hashes use {hget, hdel}

  drop_silent-hdel :
      (h : H) (m : Text) (limit : ℕ) (es : List (Text × ℕ))
      → score_in es m ≡ none
      → drop_silent (hget (hdel h t key m) t key) limit es ≡ drop_silent (hget h t key) limit es
  unfolding drop_silent
  drop_silent-hdel h m limit [] e = refl
  drop_silent-hdel h m limit ((n, s) ∷ es) e =
      ground (arith, e, laws.hget-hdel h t key m n, drop_silent-hdel h m limit es)

module _ {S Z Q H : Type 0} (redis : Server S Z Q H) (queue_laws : QueueLaws redis.queues)
    (hash_laws : HashLaws redis.hashes) (keys : RwKeys) (t : ℕ) where
  open redis.queues use {range, head, zrem}
  open redis.hashes use {hget, hdel}

  -- The loop that purges silent waiters ends, in as many rounds as there are waiters and one, with
  -- the queue from its first waiter that is not silent on.
  pub range-purge_heads :
      (fuel : ℕ) (q : Q) (h : H) (limit : ℕ) (es : List (Text × ℕ))
      → range q t keys.waiters ≡ es
      → length es < fuel
      → range (purge_heads redis keys t fuel (q, h) limit).0 t keys.waiters
        ≡ drop_silent (hget h t keys.waiter_ts) limit es
  unfolding purge_heads drop_silent
  range-purge_heads zero q h limit es e lt = absurd (omega arith)
  range-purge_heads (suc fuel) q h limit [] e lt =
      ground (arith, e, queue_laws.head_lem q t keys.waiters)
  range-purge_heads (suc fuel) q h limit ((m, s) ∷ es) e lt =
      let first = queue_laws.head_lem q t keys.waiters ∙ ap first_of e in
      let alone = (subst Distinct e (queue_laws.range-Distinct q t keys.waiters)).0 in
      let rest =
        queue_laws.range-zrem q t keys.waiters m
        ∙ ap (λ l. without l m) e
        ∙ without-first m s es alone in
      let ih =
        range-purge_heads fuel (zrem q t keys.waiters m) (hdel h t keys.waiter_ts m) limit es rest
          (omega (arith, lt)) in
      let same = drop_silent-hdel redis.hashes hash_laws t keys.waiter_ts h m limit es alone in
      ground (arith, first, e, ih, same)

  pub range-purged :
      (s : Store S Z Q H) (limit : ℕ)
      → range (purged redis keys t s limit).queue t keys.waiters
        ≡ drop_silent (hget s.times t keys.waiter_ts) limit (range s.queue t keys.waiters)
  unfolding purged
  range-purged s limit =
      range-purge_heads (suc (length (range s.queue t keys.waiters))) s.queue s.times limit
        (range s.queue t keys.waiters) refl (omega arith)
