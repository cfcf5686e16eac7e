-- ===== src/Lease/PermitSet/Members.antt =====
-- What the semaphore scripts do to the permits that are asked for and to everybody else's.
use distsync.Common.{
  ℕ, ◌+◌, ◌<◌, ◌≤◌, ◌≡◌, refl, sym, ◌⊎◌, inl, inr, true, false, none, some, List, [], ◌∷◌, Text,
  length, if◌then◌else◌, arith, Bool-cases, some_eq,
}
use mathlib.Core.Bool.{false≢true}
use distsync.Redis.{SortedSets, SortedSetLaws, above}
use distsync.Lease.PermitSet.Scripts.{
  count_owned, sem_acquire, is_live, all_live, sem_renew, sem_release,
}
use distsync.Lease.PermitSet.Laws.{
  has, zscore-add_all, zscore-remove_all, zcard-remove_all, all_live-has, count_owned-full,
  count_owned_all,
}

module _ {Db : Type 0} (redis : SortedSets Db) (laws : SortedSetLaws redis) where
  open redis use {zscore, zcard, zadd, zrem, zremrangebyscore}

  -- A refused acquisition takes no permit and no live one from anybody; it is refused only if the
  -- request does not fit beside the live permits.
  pub acquire_refused :
      (db : Db) (key : Text) (now ttl capacity : ℕ) (tokens : List Text)
      → (sem_acquire redis db key now ttl capacity tokens).1 ≡ none
      → ((m : Text)
          → zscore (sem_acquire redis db key now ttl capacity tokens).0 key m
            ≡ above now (zscore db key m))
        × (capacity
            < zcard (sem_acquire redis db key now ttl capacity tokens).0 key + length tokens)
  unfolding sem_acquire
  acquire_refused db key now ttl capacity tokens e =
      (λ m. ground (arith, laws.zscore-zremrangebyscore db key now m), ground arith)

  granted-zscore :
      (db : Db) (key : Text) (now ttl capacity n : ℕ) (tokens : List Text) (m : Text)
      → 0 < ttl
      → (sem_acquire redis db key now ttl capacity tokens).1 ≡ some n
      → (has tokens m ≡ true
          → is_live redis now (zscore (sem_acquire redis db key now ttl capacity tokens).0 key m)
            ≡ true)
        × (has tokens m ≡ false
            → zscore (sem_acquire redis db key now ttl capacity tokens).0 key m
              ≡ above now (zscore db key m))
  unfolding sem_acquire
  granted-zscore db key now ttl capacity n tokens m h e =
      let d = zremrangebyscore db key now in
      ground (
        arith,
        laws.zscore-zremrangebyscore db key now m,
        zscore-add_all redis laws d key (now + ttl) tokens m,
        count_owned-full redis laws d key tokens m,
      )

  -- A granted acquisition leaves every token that was asked for live, and of everybody else's
  -- permits exactly the live ones, with their scores.
  pub acquire_granted :
      (db : Db) (key : Text) (now ttl capacity n : ℕ) (tokens : List Text) (m : Text)
      → 0 < ttl
      → (sem_acquire redis db key now ttl capacity tokens).1 ≡ some n
      → let after = zscore (sem_acquire redis db key now ttl capacity tokens).0 key m in
        ((has tokens m ≡ true) × (is_live redis now after ≡ true))
        ⊎ ((has tokens m ≡ false) × (after ≡ above now (zscore db key m)))
  acquire_granted db key now ttl capacity n tokens m h e =
      let (own, other) = granted-zscore db key now ttl capacity n tokens m h e in
      elim (Bool-cases (has tokens m)) [ inl i ↦ inl (i, own i) | inr i ↦ inr (i, other i) ]

  not_all_live :
      (db : Db) (key : Text) (now : ℕ) (ts : List Text)
      → all_live redis db key now ts ≡ false
      → (m : Text) × (has ts m ≡ true) × (is_live redis now (zscore db key m) ≡ false)
  unfolding all_live has
  not_all_live db key now [] e = absurd (false≢true (sym e))
  not_all_live db key now (t ∷ ts) e = elim (Bool-cases (is_live redis now (zscore db key t))) [
    | inl live ↦
        let (m, i, dead) = not_all_live db key now ts (ground arith) in (m, ground arith, dead)
    | inr dead ↦ (t, ground arith, dead)
  ]

  -- A renewal is all or nothing: if every token is live, each gets a full timeout and nothing else
  -- changes; otherwise nothing changes at all.
  pub renew_all_or_nothing :
      (db : Db) (key : Text) (now ttl : ℕ) (tokens : List Text)
      → (((sem_renew redis db key now ttl tokens).1 ≡ some 1)
          × ((m : Text) → has tokens m ≡ true → is_live redis now (zscore db key m) ≡ true)
          × ((m : Text)
              → zscore (sem_renew redis db key now ttl tokens).0 key m
                ≡ (if has tokens m then some (now + ttl) else zscore db key m)))
        ⊎ (((sem_renew redis db key now ttl tokens).1 ≡ some 0)
            × ((sem_renew redis db key now ttl tokens).0 ≡ db)
            × ((m : Text) × (has tokens m ≡ true) × (is_live redis now (zscore db key m) ≡ false)))
  unfolding sem_renew
  renew_all_or_nothing db key now ttl tokens =
      elim (Bool-cases (all_live redis db key now tokens)) [
        | inl e ↦ rw e (
            inl (
              refl,
              λ m i. all_live-has redis laws db key now tokens m e i,
              λ m. zscore-add_all redis laws db key (now + ttl) tokens m,
            ))
        | inr e ↦ rw e (inr (refl, refl, not_all_live db key now tokens e))
      ]

  -- A release removes the tokens that it names and no others, and returns by how many the set
  -- shrank.
  pub release_own_only :
      (db : Db) (key : Text) (tokens : List Text) (n : ℕ)
      → (sem_release redis db key tokens).1 ≡ some n
      → ((m : Text)
          → zscore (sem_release redis db key tokens).0 key m
            ≡ (if has tokens m then none else zscore db key m))
        × (zcard (sem_release redis db key tokens).0 key + n ≡ zcard db key)
  unfolding sem_release
  release_own_only db key tokens n e = (
    λ m. zscore-remove_all redis laws db key 0 tokens m,
    omega (arith, zcard-remove_all redis laws db key 0 tokens, some_eq e),
  )

  owned_again :
      (db : Db) (key : Text) (now : ℕ) (ts : List Text)
      → ((m : Text) → has ts m ≡ true → is_live redis now (zscore db key m) ≡ true)
      → count_owned redis (zremrangebyscore db key now) key ts ≡ length ts
  owned_again db key now ts live =
      count_owned_all redis laws (zremrangebyscore db key now) key ts
        (λ m i. ground (arith, live m i, laws.zscore-zremrangebyscore db key now m))

  -- An acquisition whose tokens are all live already, as the retry of one that was committed, is
  -- granted again and counts nothing twice: no permit is added, none gets a new timeout, and only
  -- expired permits go.
  pub acquire_again :
      (db : Db) (key : Text) (now ttl capacity : ℕ) (tokens : List Text)
      → ((m : Text) → has tokens m ≡ true → is_live redis now (zscore db key m) ≡ true)
      → let again = sem_acquire redis db key now ttl capacity tokens in
        (again.1 ≡ some (zcard again.0 key))
        × ((m : Text) → zscore again.0 key m ≡ above now (zscore db key m))
        × (zcard again.0 key ≤ zcard db key)
  unfolding sem_acquire
  acquire_again db key now ttl capacity tokens live =
      let same = owned_again db key now tokens live in
      (
        ground (arith, same),
        λ m. ground (arith, same, laws.zscore-zremrangebyscore db key now m),
        ground (arith, same, laws.zcard-zremrangebyscore db key now),
      )
