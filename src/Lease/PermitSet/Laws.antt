-- ===== src/Lease/PermitSet/Laws.antt =====
-- What the scripts internal/lua/sem_*.lua do to each member of the sorted set, and to its size.
use distsync.Common.{
  ℕ, ◌+◌, ◌≤◌, ◌≡◌, refl, Bool, true, false, none, some, List, [], ◌∷◌, Text, Text_discrete, ite,
  length, if◌then◌else◌, arith,
}
use distsync.Redis.{SortedSets, SortedSetLaws, is_some}
use distsync.Lease.PermitSet.Scripts.{count_owned, add_all, is_live, all_live, remove_all}

unfoldable pub has : List Text → Text → Bool
has [] m = false
has (t ∷ ts) m = ite (Text_discrete t m) true (has ts m)

module _ {Db : Type 0} (redis : SortedSets Db) (laws : SortedSetLaws redis) where
  open redis use {zscore, zcard, zadd, zrem, zremrangebyscore}

  pub zscore-add_all :
      (db : Db) (k : Text) (s : ℕ) (ts : List Text) (m : Text)
      → zscore (add_all redis db k s ts) k m ≡ (if has ts m then some s else zscore db k m)
  unfolding add_all has
  zscore-add_all db k s [] m = refl
  zscore-add_all db k s (t ∷ ts) m =
      ground (arith, zscore-add_all (zadd db k s t) k s ts m, laws.zscore-zadd db k s t m)

  pub zcard-add_all :
      (db : Db) (k : Text) (s : ℕ) (ts : List Text)
      → zcard (add_all redis db k s ts) k ≤ zcard db k + length ts
  unfolding add_all
  zcard-add_all db k s [] = omega arith
  zcard-add_all db k s (t ∷ ts) =
      ground (arith, zcard-add_all (zadd db k s t) k s ts, laws.zcard-zadd db k s t)

  pub zscore-remove_all :
      (db : Db) (k : Text) (n : ℕ) (ts : List Text) (m : Text)
      → zscore (remove_all redis db k n ts).0 k m ≡ (if has ts m then none else zscore db k m)
  unfolding remove_all has
  zscore-remove_all db k n [] m = refl
  zscore-remove_all db k n (t ∷ ts) m = ground (
    arith,
    zscore-remove_all (zrem db k t).0 k (n + (zrem db k t).1) ts m,
    laws.zscore-zrem db k t m,
  )

  -- The reply of the release script is the number by which the set shrinks.
  pub zcard-remove_all :
      (db : Db) (k : Text) (n : ℕ) (ts : List Text)
      → zcard (remove_all redis db k n ts).0 k + (remove_all redis db k n ts).1 ≡ n + zcard db k
  unfolding remove_all
  zcard-remove_all db k n [] = omega arith
  zcard-remove_all db k n (t ∷ ts) =
      omega
        (arith, zcard-remove_all (zrem db k t).0 k (n + (zrem db k t).1) ts, laws.zcard-zrem db k t)

  pub all_live-has :
      (db : Db) (k : Text) (now : ℕ) (ts : List Text) (m : Text)
      → all_live redis db k now ts ≡ true
      → has ts m ≡ true
      → is_live redis now (zscore db k m) ≡ true
  unfolding all_live has
  all_live-has db k now [] m h e = cc
  all_live-has db k now (t ∷ ts) m h e = ground (arith, all_live-has db k now ts m)

  pub count_owned-le : (db : Db) (k : Text) (ts : List Text) → count_owned redis db k ts ≤ length ts
  unfolding count_owned
  count_owned-le db k [] = omega arith
  count_owned-le db k (t ∷ ts) = ground (arith, count_owned-le db k ts)

  -- The count is full only if each one is there, and then it is.
  pub count_owned-full :
      (db : Db) (k : Text) (ts : List Text) (m : Text)
      → count_owned redis db k ts ≡ length ts
      → has ts m ≡ true
      → is_some (zscore db k m) ≡ true
  unfolding count_owned has
  count_owned-full db k [] m h e = cc
  count_owned-full db k (t ∷ ts) m h e =
      ground (arith, count_owned-full db k ts m, count_owned-le db k ts)

  pub count_owned_all :
      (db : Db) (k : Text) (ts : List Text)
      → ((m : Text) → has ts m ≡ true → is_some (zscore db k m) ≡ true)
      → count_owned redis db k ts ≡ length ts
  unfolding count_owned has
  count_owned_all db k [] h = refl
  count_owned_all db k (t ∷ ts) h =
      ground (arith, h t, count_owned_all db k ts (λ m e. h m (ground arith)))
