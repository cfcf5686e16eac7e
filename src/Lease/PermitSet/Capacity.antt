-- ===== src/Lease/PermitSet/Capacity.antt =====
-- The semaphore scripts keep a semaphore within its capacity.
use distsync.Common.{
  ℕ, ◌+◌, ◌≤◌, ◌≡◌, refl, true, Option, none, some, List, [], ◌∷◌, Text, length, arith,
}
use native.Mathlib.Nat.{le_trans}
use mathlib.Core.List.{Mem, Nodup}
use distsync.Redis.{SortedSets, SortedSetLaws, is_some}
use distsync.Lease.PermitSet.Scripts.{
  add_all, sem_acquire, is_live, all_live, sem_renew, sem_release,
}
use distsync.Lease.PermitSet.Laws.{has, zcard-add_all, zcard-remove_all, all_live-has}

-- What any client may ask of a semaphore, at any time and in any order, with any tokens.
pub data Call : Type 0 where
  acquires : (now ttl : ℕ) → List Text → Call
  renews : (now ttl : ℕ) → List Text → Call
  releases : List Text → Call

module _ {Db : Type 0} (redis : SortedSets Db) (key : Text) (capacity : ℕ) where
  unfoldable pub call : Db → Call → Db
  call db (acquires now ttl tokens) = (sem_acquire redis db key now ttl capacity tokens).0
  call db (renews now ttl tokens) = (sem_renew redis db key now ttl tokens).0
  call db (releases tokens) = (sem_release redis db key tokens).0

  unfoldable pub run : Db → List Call → Db
  unfolding call
  run db [] = db
  run db (c ∷ cs) = run (call db c) cs

module _ {Db : Type 0} (redis : SortedSets Db) (laws : SortedSetLaws redis) where
  open redis use {zscore, zcard, zadd, zrem, zremrangebyscore}

  pub acquire-zcard :
      (db : Db) (key : Text) (now ttl capacity : ℕ) (tokens : List Text)
      → zcard db key ≤ capacity
      → zcard (sem_acquire redis db key now ttl capacity tokens).0 key ≤ capacity
  unfolding sem_acquire
  acquire-zcard db key now ttl capacity tokens h =
      let d = zremrangebyscore db key now in
      ground (
        arith,
        laws.zcard-zremrangebyscore db key now,
        zcard-add_all redis laws d key (now + ttl) tokens,
      )

  live_is_some : (now : ℕ) (o : Option ℕ) → is_live redis now o ≡ true → is_some o ≡ true
  live_is_some now none e = e
  live_is_some now (some s) e = refl

  zcard-add_present :
      (db : Db) (key : Text) (s : ℕ) (ts : List Text)
      → ((m : Text) → has ts m ≡ true → is_some (zscore db key m) ≡ true)
      → zcard (add_all redis db key s ts) key ≡ zcard db key
  unfolding add_all has
  zcard-add_present db key s [] h = refl
  zcard-add_present db key s (t ∷ ts) h =
      let rest =
        zcard-add_present (zadd db key s t) key s ts
          (λ m e. ground (arith, laws.zscore-zadd db key s t m, h m)) in
      ground (arith, rest, laws.zcard-zadd db key s t, h t)

  pub renew-zcard :
      (db : Db) (key : Text) (now ttl : ℕ) (tokens : List Text)
      → zcard (sem_renew redis db key now ttl tokens).0 key ≡ zcard db key
  unfolding sem_renew
  renew-zcard db key now ttl tokens =
      let same = λ (e : all_live redis db key now tokens ≡ true).
        zcard-add_present db key (now + ttl) tokens (λ m i.
          live_is_some now (zscore db key m) (all_live-has redis laws db key now tokens m e i)) in
      ground (arith, same)

  pub release-zcard :
      (db : Db) (key : Text) (tokens : List Text)
      → zcard (sem_release redis db key tokens).0 key ≤ zcard db key
  unfolding sem_release
  release-zcard db key tokens = omega (arith, zcard-remove_all redis laws db key 0 tokens)

  module _ (key : Text) (capacity : ℕ) where
    call-zcard :
        (db : Db) (c : Call)
        → zcard db key ≤ capacity
        → zcard (call redis key capacity db c) key ≤ capacity
    unfolding call
    call-zcard db (acquires now ttl tokens) h = acquire-zcard db key now ttl capacity tokens h
    call-zcard db (renews now ttl tokens) h = omega (arith, h, renew-zcard db key now ttl tokens)
    call-zcard db (releases tokens) h = omega (arith, h, release-zcard db key tokens)

    run-zcard :
        (db : Db) (cs : List Call)
        → zcard db key ≤ capacity
        → zcard (run redis key capacity db cs) key ≤ capacity
    unfolding run
    run-zcard db [] h = h
    run-zcard db (c ∷ cs) h = run-zcard (call redis key capacity db c) cs (call-zcard db c h)

    -- Whatever clients ask of a semaphore that is within its capacity, with whatever clocks and
    -- timeouts: the permits in it, expired ones included, never outnumber the capacity.
    pub run_capacity :
        (db : Db) (cs : List Call) (held : List Text)
        → zcard db key ≤ capacity
        → Nodup held
        → ((m : Text) → Mem m held → is_some (zscore (run redis key capacity db cs) key m) ≡ true)
        → length held ≤ capacity
    run_capacity db cs held h distinct there =
        le_trans (laws.zcard_bound _ key held distinct there) (run-zcard db cs h)
