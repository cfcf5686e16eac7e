-- ===== src/RateLimit/Bucket/Examples.antt =====
-- Runs of the buckets over hashes in memory, and the theorems at them.
use distsync.Common.{
  ℕ, ◌*◌, ◌≤◌, ◌≡◌, refl, true, false, leb, none, [], ◌∷◌, arith, ℕ_discrete, Text_discrete,
}
use distsync.Common.Int.{◌+ℤ◌, ◌-ℤ◌, times}
use distsync.Redis.{millisecond}
use distsync.Redis.Memory.{put}
use distsync.Redis.Memory.HashProofs.{
  Table, memory_hashes, memory_hash_laws, amount, stamp, hset, expire, delete,
}
use distsync.Lease.Core.{milliseconds}
use distsync.RateLimit.Bucket.{Bucket, token_script, token_verdict, leaky_verdict}
use distsync.RateLimit.Bucket.Meter.{meter_step}
use distsync.RateLimit.Bucket.Refine.{
  Ask, Near, run, meter_run, empty, token_run-meter, leaky_run-token,
}
use distsync.RateLimit.Bucket.Bounds.{granted, later, token_bound, token_retry}

-- Five tokens, and ten more a second, in thousandths.
abbrev bucket : Bucket
bucket = record { key = b'k' ∷ []; capacity = 5_000; rate = 10 }

abbrev unused : Table
unused = λ _. record { amounts = λ _. none; ts = none; until = none }

-- Three fit, three more do not, and do when the time named is over.
abbrev first : Ask
first = record { delay = 2 * millisecond; now = 1_000; requested = 3_000 }

abbrev second : Ask
second = record { delay = 5 * millisecond; now = 1_005; requested = 3_000 }

abbrev third : Ask
third = record { delay = 95 * millisecond; now = 1_100; requested = 3_000 }

abbrev start : ℕ
start = 1_000 * millisecond

near : Near start (first ∷ second ∷ third ∷ [])
unfolding Near milliseconds
near = (omega arith, omega arith, (omega arith, omega arith, (omega arith, omega arith, tt)))

-- What the meter makes of them.
metered :
    meter_run bucket empty (first ∷ second ∷ third ∷ []) ≡ (true, 0) ∷ (false, 95) ∷ (true, 0) ∷ []
unfolding meter_run meter_step
metered = refl

token_run-meter_example :
    run
      (token_verdict memory_hashes bucket)
      start
      (delete unused bucket.key)
      (first ∷ second ∷ third ∷ [])
    ≡ meter_run bucket empty (first ∷ second ∷ third ∷ [])
token_run-meter_example =
    token_run-meter memory_hashes memory_hash_laws bucket start unused (first ∷ second ∷ third ∷ [])
      (omega arith) near

leaky_run-token_example :
    run
      (leaky_verdict memory_hashes bucket)
      start
      (delete unused bucket.key)
      (first ∷ second ∷ third ∷ [])
    ≡ run
        (token_verdict memory_hashes bucket)
        start
        (delete unused bucket.key)
        (first ∷ second ∷ third ∷ [])
leaky_run-token_example =
    leaky_run-token memory_hashes memory_hash_laws bucket start unused (first ∷ second ∷ third ∷ [])
      (omega arith) near

token_bound_example :
    granted (second ∷ third ∷ []) (
      later (first ∷ []) (
        run
          (token_verdict memory_hashes bucket)
          start
          (delete unused bucket.key)
          (first ∷ second ∷ third ∷ [])))
    ≤ 5_950
token_bound_example =
    token_bound memory_hashes memory_hash_laws bucket start unused (first ∷ [])
      (second ∷ third ∷ []) 1_005 1_100 (omega arith) near (omega arith, tt)
      (omega arith, (omega arith, tt)) (omega arith, (omega arith, tt))

replied :
    later (first ∷ []) (
      run
        (token_verdict memory_hashes bucket)
        start
        (delete unused bucket.key)
        (first ∷ second ∷ third ∷ []))
    ≡ (false, 95) ∷ (true, 0) ∷ []
unfolding later run token_script token_verdict amount stamp hset expire delete put ◌+ℤ◌ ◌-ℤ◌ times
    ℕ_discrete Text_discrete
replied = refl

token_retry_example : true ≡ leb 1_100 1_100
token_retry_example =
    token_retry memory_hashes memory_hash_laws bucket start unused (first ∷ []) second third 95 0
      true (omega arith) near (omega arith) refl replied
