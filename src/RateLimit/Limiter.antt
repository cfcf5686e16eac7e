-- ===== src/RateLimit/Limiter.antt =====
-- ratelimiter.go: the constructor of a rate limiter, and its methods for all four algorithms. A
-- finite double is a whole multiple of 2^-1074, the least one; quotients are compared exactly.
pub mod Limits
pub mod Requests
pub mod Cleared
pub mod Budget
mod Memory
mod Examples
use distsync.Common.{
  ◌>>=◌, ℕ, ◌+◌, ◌-◌, ◌*◌, ◌/◌, ◌%◌, ◌^◌, Bool, true, false, not, ◌||◌, ◌&&◌, Option, none, some,
  List, [], ◌∷◌, Text, if◌then◌else◌, ltb, leb, ◌==◌,
}
use distsync.Common.Int.{ℤ, pos, negsuc, pos_part}
use distsync.Redis.{millisecond}
use distsync.Redis.Counting.{Counters}
use distsync.Redis.Hashes.{Hashes}
use distsync.Redis.Windows.{Windows}
use distsync.Config.{key}
use distsync.Lease.Core.{
  Error, transport, canceled, invalid, Trip, delivered, reply_lost, request_lost, milliseconds,
}
use distsync.RateLimit.{RateLimiter, Answer, Turn, ceil, settle, ratelimit_fixed, fixed_window_key}
use distsync.RateLimit.Bucket.{Bucket, token_script, leaky_script}
use distsync.RateLimit.Sliding.{Window, sliding_script}

-- A double, `finite n` for n * 2^-1074
pub data Double : Type 0 where
  nan : Double
  infinite : (negative : Bool) → Double
  finite : ℤ → Double

-- 1.0
abbrev pub one : ℕ
one = 2 ^ 1_074

pub data Algorithm : Type 0 where
  token_bucket fixed_window sliding_window leaky_bucket : Algorithm

abbrev pub is_windowed : Algorithm → Bool
is_windowed token_bucket = false
is_windowed fixed_window = true
is_windowed sliding_window = true
is_windowed leaky_bucket = false

pub record Rate : Type 0 where
  pub per_second : Double
  pub capacity : Double

-- PerSecond
unfoldable pub per_second : Double → Rate
per_second n = record { per_second = n; capacity = n }

-- WithBurst
unfoldable pub with_burst : Rate → Double → Rate
with_burst r capacity = record r { capacity = capacity }

-- A RateLimiter that the constructor has let through: its capacity and its rate for a second are
-- positive multiples of 2^-1074.
pub record Limiter : Type 0 where
  pub name : Text
  pub key : Text
  pub capacity : ℕ
  pub rate : ℕ
  pub algorithm : Algorithm

-- `n > 0`, and finite
abbrev pub positive : Double → Option ℕ
positive nan = none
positive (infinite negative) = none
positive (finite (pos n)) = if n == 0 then none else some n
positive (finite (negsuc n)) = none

-- The options are TokenBucket, FixedWindow, SlidingWindow and LeakyBucket, each by what it selects.
unfoldable pub selected : Algorithm → List Algorithm → Algorithm
selected a [] = a
selected a (o ∷ opts) = selected o opts

-- math.MaxInt64 / int64(time.Millisecond)
abbrev pub max_window : ℕ
max_window = 9_223_372_036_854

-- `none` when it panics, for a finite rate and capacity
unfoldable pub checked : Limiter → Option Limiter
checked rl =
    if ltb (max_window * rl.rate) (rl.capacity * 1_000)
    then none
    else if is_windowed rl.algorithm
        && (ltb (rl.capacity * 1_000) rl.rate
            || ltb rl.capacity one
            || ltb ((2 ^ 53 - 1) * one) rl.capacity)
    then none
    else some rl

-- Client.RateLimiter; `none` when it panics
unfoldable pub new_limiter : Text → Rate → List Algorithm → Option Limiter
unfolding selected checked
new_limiter name rate opts = do
  r ← positive rate.per_second
  c ← positive rate.capacity
  checked (record {
    name = name;
    key = key name;
    capacity = c;
    rate = r;
    algorithm = selected token_bucket opts;
  })

-- window().Milliseconds()
unfoldable pub window_ms : Limiter → ℕ
window_ms rl = rl.capacity * 1_000 / rl.rate

-- What the scripts are given: a fixed window, a bucket in units of a thousandth of 2^-1074, or a
-- sliding window
unfoldable pub fixed_of : Limiter → RateLimiter
unfolding window_ms
fixed_of rl = record { key = rl.key; capacity = rl.capacity / one; window = window_ms rl }

unfoldable pub bucket_of : Limiter → Bucket
bucket_of rl = record { key = rl.key; capacity = rl.capacity * 1_000; rate = rl.rate }

unfoldable pub window_of : Limiter → Window
unfolding window_ms
window_of rl = record { key = rl.key; limit = rl.capacity / one; length = window_ms rl }

-- The database, through the commands of each script
pub record Server (D : Type 0) : Type 0 where
  pub counters : Counters D
  pub hashes : Hashes D
  pub windows : Windows D

-- The method `allow`, after the script: what it makes of the reply, which has three numbers.
abbrev pub answered : {D : Type 0} → Trip → D → D → Bool → ℕ → D × Answer
answered trip d d' allowed retry = elim trip.fate [
  | delivered ↦ (d', record { allowed = allowed; retry_after = retry * millisecond; error = [] })
  | reply_lost ↦ (d', record { allowed = false; retry_after = 0; error = transport ∷ [] })
  | request_lost ↦ (d, record { allowed = false; retry_after = 0; error = transport ∷ [] })
]

-- n, rounded up to a whole number of requests for the windows
unfoldable pub rounded : Algorithm → ℕ → ℕ
rounded a n = if is_windowed a then ceil (n / one) (not (n % one == 0)) * one else n

module _ {D : Type 0} (server : Server D) where
  open server use {counters, hashes, windows}

  -- The scripts, by the algorithm, for a request of `n`
  unfoldable pub ask : Limiter → ℕ → Text → Trip → D → D × Answer
  unfolding fixed_of bucket_of window_of
  ask rl n token trip d =
      let now = milliseconds trip.sent in
      elim rl.algorithm [
        | token_bucket ↦
            let (d', r) = token_script hashes (bucket_of rl) d trip.served now (n * 1_000) in
            answered trip d d' r.0 r.2
        | leaky_bucket ↦
            let (d', r) = leaky_script hashes (bucket_of rl) d trip.served now (n * 1_000) in
            answered trip d d' r.0 r.2
        | sliding_window ↦
            let (d', r) = sliding_script windows (window_of rl) d trip.served now (n / one) token in
            answered trip d d' r.0 (pos_part r.2)
        | fixed_window ↦
            let f = fixed_of rl in
            let (d', v) =
              ratelimit_fixed counters d trip.served (fixed_window_key f now) f.capacity f.window
                now (n / one) in
            answered trip d d' v.allowed v.retry
      ]

  -- Allow
  unfoldable pub allow : Limiter → Double → Text → Trip → D → D × Answer
  unfolding ask rounded
  allow rl nan token trip d = (d, record { allowed = false; retry_after = 0; error = invalid ∷ [] })
  allow rl (infinite negative) token trip d =
      (d, record { allowed = false; retry_after = 0; error = invalid ∷ [] })
  allow rl (finite (negsuc n)) token trip d =
      (d, record { allowed = false; retry_after = 0; error = invalid ∷ [] })
  allow rl (finite (pos n)) token trip d =
      if n == 0
      then (d, record { allowed = true; retry_after = 0; error = [] })
      else if ltb rl.capacity (rounded rl.algorithm n)
      then (d, record { allowed = false; retry_after = 0; error = invalid ∷ [] })
      else ask rl (rounded rl.algorithm n) token trip d

  -- Acquire, with its turns and the token of each
  unfoldable pub acquire : Limiter → Double → List (Text × Turn D) → D → Option (D × List ℕ × Error)
  unfolding allow
  acquire rl n [] d = none
  acquire rl n ((token, r) ∷ rs) d =
      let (d', a) = allow rl n token r.trip (r.others d) in
      let rest = acquire rl n rs d' in settle a r d' rest

  -- DEL of its key, or of the key of the current window
  unfoldable pub cleared : Limiter → Trip → D → D
  unfolding fixed_of
  cleared rl trip d = elim rl.algorithm [
    | token_bucket ↦ hashes.del d trip.served rl.key
    | leaky_bucket ↦ hashes.del d trip.served rl.key
    | sliding_window ↦ windows.del d trip.served rl.key
    | fixed_window ↦
        counters.del d trip.served (fixed_window_key (fixed_of rl) (milliseconds trip.sent))
  ]

  -- Reset
  unfoldable pub reset : Limiter → Trip → D → D × Error
  unfolding cleared
  reset rl trip d =
      let d' = cleared rl trip d in
      elim trip.fate [
        | delivered ↦ (d', [])
        | reply_lost ↦ (d', transport ∷ [])
        | request_lost ↦ (d, transport ∷ [])
      ]
