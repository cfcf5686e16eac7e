-- ===== src/RateLimit.antt =====
-- ratelimiter.go with the algorithm FixedWindow. Counts are whole numbers there, so of the capacity
-- only its whole part matters; it and the window, which are fractions of doubles, are parameters.
pub mod Limiter
pub mod Bucket
pub mod Sliding
pub mod Refine
pub mod Refused
mod Examples
use distsync.Common.{
  ℕ, zero, suc, ◌+◌, ◌-◌, ◌*◌, ◌/◌, ◌≡◌, Bool, true, false, not, Option, none, some, List, [], ◌∷◌,
  ◌++◌, Text, if◌then◌else◌, ltb, leb, ◌==◌,
}
use distsync.Common.Decimal.{decimal}
use distsync.Redis.{millisecond}
use distsync.Redis.Counting.{Counters}
use distsync.Lease.Core.{
  Error, transport, canceled, invalid, Trip, delivered, reply_lost, request_lost, milliseconds,
}
use distsync.Handle.{is_nil}

-- The window is window().Milliseconds().
pub record RateLimiter : Type 0 where
  pub key : Text
  pub capacity : ℕ
  pub window : ℕ

-- The argument n, a double: negative or not finite; or its whole part, and whether there is more.
pub data Amount : Type 0 where
  unfit : Amount
  amount : (whole : ℕ) (more : Bool) → Amount

-- math.Ceil
abbrev pub ceil : ℕ → Bool → ℕ
ceil whole more = if more then whole + 1 else whole

-- The reply of a script: allowed, remaining, and the milliseconds after which to ask again.
pub record Verdict : Type 0 where
  pub allowed : Bool
  pub remaining : ℕ
  pub retry : ℕ

-- What Allow returns: allowed, the time to wait in nanoseconds, and an error.
pub record Answer : Type 0 where
  pub allowed : Bool
  pub retry_after : ℕ
  pub error : Error

-- One turn of the loop: what others did since the one before, the request, whether the context was
-- over after it, and whether `select` then took the timer.
pub record Turn (C : Type 0) : Type 0 where
  pub others : C → C
  pub trip : Trip
  pub over : Bool
  pub woken : Bool

-- `if retryAfter <= 0 { retryAfter = 10 * time.Millisecond }`
unfoldable pub pause : ℕ → ℕ
pause retry_after = if retry_after == 0 then 10 * millisecond else retry_after

-- What the loop has returned, with the pauses that it made; `none` while it waits.
abbrev pub paused : {C : Type 0} → ℕ → Option (C × List ℕ × Error) → Option (C × List ℕ × Error)
paused p none = none
paused p (some (c, pauses, e)) = some (c, p ∷ pauses, e)

-- The body of the loop after Allow, with the turns that follow.
abbrev pub settle :
    {C : Type 0} → Answer → Turn C → C → Option (C × List ℕ × Error) → Option (C × List ℕ × Error)
settle a r c rest =
    if not (is_nil a.error)
    then some (c, [], a.error)
    else if a.allowed
    then some (c, [], [])
    else if r.over
    then some (c, [], canceled ∷ [])
    else if r.woken
    then paused (pause a.retry_after) rest
    else some (c, [], canceled ∷ [])

-- fixedWindowKey
unfoldable pub fixed_window_key : RateLimiter → ℕ → Text
fixed_window_key rl now = rl.key ++ b':' ∷ decimal (now / rl.window)

module _ {C : Type 0} (redis : Counters C) where
  open redis use {incrby, decrby, pexpire, del}

  -- internal/lua/ratelimit_fixed.lua, run by the server at `t`
  unfoldable pub ratelimit_fixed : C → ℕ → Text → ℕ → ℕ → ℕ → ℕ → C × Verdict
  ratelimit_fixed c t window_key limit window now requested =
      let w = now / window in
      let (c', count) = incrby c t window_key requested in
      let d = pexpire c' t window_key (window * 2) in
      let retry = (w + 1) * window - now in
      if ltb limit count
      then (
        (decrby d t window_key requested).0,
        record { allowed = false; remaining = 0; retry = retry },
      )
      else (d, record { allowed = true; remaining = limit - count; retry = retry })

  -- What Allow asks of the server, and what it makes of the reply.
  unfoldable pub ask : RateLimiter → ℕ → Trip → C → C × Answer
  unfolding ratelimit_fixed fixed_window_key
  ask rl n trip c =
      let now = milliseconds trip.sent in
      let (c', v) =
        ratelimit_fixed c trip.served (fixed_window_key rl now) rl.capacity rl.window now n in
      elim trip.fate [
        | delivered ↦
            (c', record { allowed = v.allowed; retry_after = v.retry * millisecond; error = [] })
        | reply_lost ↦ (c', record { allowed = false; retry_after = 0; error = transport ∷ [] })
        | request_lost ↦ (c, record { allowed = false; retry_after = 0; error = transport ∷ [] })
      ]

  -- Allow
  unfoldable pub allow : RateLimiter → Amount → Trip → C → C × Answer
  unfolding ask
  allow rl unfit trip c = (c, record { allowed = false; retry_after = 0; error = invalid ∷ [] })
  allow rl (amount whole more) trip c =
      let n = ceil whole more in
      if n == 0
      then (c, record { allowed = true; retry_after = 0; error = [] })
      else if ltb rl.capacity n
      then (c, record { allowed = false; retry_after = 0; error = invalid ∷ [] })
      else ask rl n trip c

  -- Acquire, with its turns
  unfoldable pub acquire : RateLimiter → Amount → List (Turn C) → C → Option (C × List ℕ × Error)
  unfolding allow
  acquire rl n [] c = none
  acquire rl n (r ∷ rs) c =
      let (c', a) = allow rl n r.trip (r.others c) in
      let rest = acquire rl n rs c' in settle a r c' rest

  -- Reset
  unfoldable pub reset : RateLimiter → ℕ → Trip → C → C × Error
  unfolding fixed_window_key
  reset rl now trip c =
      let c' = del c trip.served (fixed_window_key rl now) in
      elim trip.fate [
        | delivered ↦ (c', [])
        | reply_lost ↦ (c', transport ∷ [])
        | request_lost ↦ (c, transport ∷ [])
      ]
