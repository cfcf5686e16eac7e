-- ===== src/Redis/Memory/SetProofs.antt =====
-- The sorted sets in memory, and that they have the laws of Redis.
use distsync.Common.{
  ℕ, ◌+◌, ◌≤◌, ◌≡◌, refl, sym, subst, true, Option, none, some, List, [], ◌∷◌, ite, Text,
  Text_discrete, arith, length, if◌then◌else◌, if_pos, if_neg,
}
use mathlib.Core.List.{Mem, Nodup, Nodup-cons, mem-cons_self, mem-cons_of_mem}
use distsync.Redis.Commands.{SortedSets, SortedSetLaws, is_some, above}
use distsync.Redis.Memory.{Members, Distinct, ZSet, Memory, score, put, insert, remove, purge}

score-insert :
    (s : ℕ) (m : Text) (l : Members) (t : Text)
    → score (insert s m l) t ≡ ite (Text_discrete m t) (some s) (score l t)
unfolding score insert
score-insert s m [] t = refl
score-insert s m ((n, x) ∷ r) t = ground (arith, score-insert s m r t)

pub insert-Distinct : (s : ℕ) (m : Text) (l : Members) → Distinct l → Distinct (insert s m l)
unfolding insert score
insert-Distinct s m [] d = (refl, tt)
insert-Distinct s m ((n, x) ∷ r) d = ground (arith, insert-Distinct s m r d.1, score-insert s m r n)

length-insert :
    (s : ℕ) (m : Text) (l : Members)
    → length (insert s m l) ≡ length l + (if is_some (score l m) then 0 else 1)
unfolding insert score
length-insert s m [] = refl
length-insert s m ((n, x) ∷ r) = ground (arith, length-insert s m r)

score-remove :
    (m : Text) (l : Members) (t : Text)
    → Distinct l
    → score (remove m l) t ≡ ite (Text_discrete m t) none (score l t)
unfolding score remove
score-remove m [] t d = ground arith
score-remove m ((n, x) ∷ r) t d = ground (arith, score-remove m r t d.1)

pub remove-Distinct : (m : Text) (l : Members) → Distinct l → Distinct (remove m l)
unfolding remove score
remove-Distinct m [] d = tt
remove-Distinct m ((n, x) ∷ r) d = ground (arith, remove-Distinct m r d.1, score-remove m r n d.1)

length-remove :
    (m : Text) (l : Members)
    → length (remove m l) + (if is_some (score l m) then 1 else 0) ≡ length l
unfolding remove score
length-remove m [] = refl
length-remove m ((n, x) ∷ r) = ground (arith, length-remove m r)

purge_absent : (max : ℕ) (l : Members) (t : Text) → score l t ≡ none → score (purge max l) t ≡ none
unfolding score purge
purge_absent max [] t e = e
purge_absent max ((n, x) ∷ r) t e = ground (arith, purge_absent max r t)

score-purge :
    (max : ℕ) (l : Members) (t : Text) → Distinct l → score (purge max l) t ≡ above max (score l t)
unfolding score purge
score-purge max [] t d = refl
score-purge max ((n, x) ∷ r) t d = ground (arith, score-purge max r t d.1, purge_absent max r t)

pub purge-Distinct : (max : ℕ) (l : Members) → Distinct l → Distinct (purge max l)
unfolding purge score
purge-Distinct max [] d = tt
purge-Distinct max ((n, x) ∷ r) d = ground (arith, purge-Distinct max r d.1, purge_absent max r n)

length-purge : (max : ℕ) (l : Members) → length (purge max l) ≤ length l
unfolding purge
length-purge max [] = omega arith
length-purge max ((n, x) ∷ r) = ground (arith, length-purge max r)

-- Distinct members of a set are at most as many as the set has.
bound :
    (ms : List Text) (l : Members)
    → Distinct l
    → Nodup ms
    → ((m : Text) → Mem m ms → is_some (score l m) ≡ true)
    → length ms ≤ length l
bound [] l d nodup there = omega arith
bound (m ∷ ms) l d nodup there =
    let (fresh, rest) = Nodup-cons.0 nodup in
    let ih = bound ms (remove m l) (remove-Distinct m l d) rest (λ t i. elim (Text_discrete m t) [
      | yes e ↦ absurd (fresh (subst (λ x. Mem x ms) (sym e) i))
      | no n ↦
          rw (score-remove m l t d, if_neg (Text_discrete m t) n) (there t (mem-cons_of_mem m i))
    ]) in
    ground (arith, ih, length-remove m l, there m mem-cons_self)

unfoldable pub zscore : Memory → Text → Text → Option ℕ
zscore m k t = score (m.zsets k).members t

unfoldable pub zcard : Memory → Text → ℕ
zcard m k = length (m.zsets k).members

unfoldable pub with_set : Memory → Text → ZSet → Memory
unfolding put
with_set m k z = record m { zsets = put m.zsets k z }

unfoldable pub zadd : Memory → Text → ℕ → Text → Memory
unfolding insert
zadd m k s t =
    let z = m.zsets k in
    with_set m k (record {
      members = insert s t z.members;
      distinct = insert-Distinct s t z.members z.distinct;
    })

unfoldable pub zrem : Memory → Text → Text → Memory × ℕ
unfolding remove score
zrem m k t =
    let z = m.zsets k in
    (
      with_set m k (record {
        members = remove t z.members;
        distinct = remove-Distinct t z.members z.distinct;
      }),
      if is_some (score z.members t) then 1 else 0,
    )

unfoldable pub zremrangebyscore : Memory → Text → ℕ → Memory
unfolding purge
zremrangebyscore m k max =
    let z = m.zsets k in
    with_set m k
      (record { members = purge max z.members; distinct = purge-Distinct max z.members z.distinct })

abbrev pub memory_sets : SortedSets Memory
memory_sets = record {
  zscore = zscore;
  zcard = zcard;
  zadd = zadd;
  zrem = zrem;
  zremrangebyscore = zremrangebyscore;
}

with_set_at : (m : Memory) (k : Text) (z : ZSet) → (with_set m k z).zsets k ≡ z
unfolding with_set put
with_set_at m k z = rw (if_pos (Text_discrete k k) refl)

pub memory_set_laws : SortedSetLaws memory_sets
unfolding zscore zcard zadd zrem zremrangebyscore
memory_set_laws = record {
  zscore-zadd = λ m k s t u. rw (with_set_at m k _) (score-insert s t (m.zsets k).members u);
  zscore-zrem =
      λ m k t u. rw (with_set_at m k _) (score-remove t (m.zsets k).members u (m.zsets k).distinct);
  zrem-count = λ m k t. refl;
  zscore-zremrangebyscore = λ m k max t.
      rw (with_set_at m k _) (score-purge max (m.zsets k).members t (m.zsets k).distinct);
  zcard-zadd = λ m k s t. rw (with_set_at m k _) (length-insert s t (m.zsets k).members);
  zcard-zrem = λ m k t. rw (with_set_at m k _) (length-remove t (m.zsets k).members);
  zcard-zremrangebyscore = λ m k max. rw (with_set_at m k _) (length-purge max (m.zsets k).members);
  zcard_bound = λ m k ms nodup there. bound ms (m.zsets k).members (m.zsets k).distinct nodup there;
}
