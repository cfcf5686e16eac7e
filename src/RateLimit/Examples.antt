-- ===== src/RateLimit/Examples.antt =====
-- Runs of the fixed window over counters in memory, and the theorems at them.
use distsync.Common.{
  ℕ, ◌*◌, ◌≤◌, ◌≡◌, refl, true, false, none, List, [], ◌∷◌, All, arith, ℕ_discrete,
}
use distsync.Redis.{millisecond}
use distsync.Redis.Memory.{put}
use distsync.Redis.Memory.CounterProofs.{
  Counts, memory_counters, memory_counter_laws, value, incrby, decrby, expire,
}
use distsync.Lease.Core.{Trip, delivered, milliseconds}
use distsync.RateLimit.{RateLimiter, amount, Turn, fixed_window_key, ratelimit_fixed, ask, allow}
use distsync.RateLimit.Refine.{Call, total, run, ledger_run, key_of, IsKept, run_bound}
use distsync.RateLimit.Refused.{refused_free}

-- Three requests a second.
abbrev limiter : RateLimiter
limiter = record { key = b'k' ∷ []; capacity = 3; window = 1_000 }

abbrev unused : Counts
unused = λ _. record { n = 0; until = none }

-- Two fit, two more do not, one does.
abbrev calls : List Call
calls =
    record { delay = 5 * millisecond; age = millisecond; n = 2 }
    ∷ record { delay = 5 * millisecond; age = millisecond; n = 2 }
    ∷ record { delay = 5 * millisecond; age = millisecond; n = 1 }
    ∷ []

in_time : All (λ (a : Call). a.age ≤ limiter.window * millisecond) calls
in_time = (omega arith, (omega arith, (omega arith, tt)))

at_zero : (w t' : ℕ) → value unused t' (key_of limiter w) ≡ 0
unfolding value
at_zero w t' = refl

start-IsKept : IsKept memory_counters memory_counter_laws limiter (λ _. 0) 0 unused
unfolding IsKept
start-IsKept w t' le lt = at_zero w t'

run_bound_example : total 0 (run memory_counters limiter 0 unused calls) ≤ 3
run_bound_example =
    run_bound memory_counters memory_counter_laws limiter 0 0 unused calls (omega arith)
      (λ v t' le. at_zero v t') in_time

-- What the ledger makes of them.
granted : ledger_run limiter 0 (λ _. 0) calls ≡ (0, 2, true) ∷ (0, 2, false) ∷ (0, 1, true) ∷ []
unfolding ledger_run milliseconds ℕ_discrete
granted = refl

abbrev trip : Trip
trip = record {
  sent = 5 * millisecond;
  served = 6 * millisecond;
  back = 7 * millisecond;
  fate = delivered;
}

-- Two are counted in every window.
abbrev counted : Counts
counted = λ _. record { n = 2; until = none }

not_granted : (allow memory_counters limiter (amount 1 true) trip counted).1.allowed ≡ false
unfolding allow ask ratelimit_fixed fixed_window_key milliseconds incrby decrby expire value put
not_granted = refl

refused_free_example :
    value (allow memory_counters limiter (amount 1 true) trip counted).0 6_000_000 (b'k' ∷ [])
    ≡ value counted 6_000_000 (b'k' ∷ [])
refused_free_example =
    refused_free memory_counters memory_counter_laws limiter (amount 1 true) trip counted
      (b'k' ∷ []) (omega arith) refl not_granted

abbrev turn : Turn Counts
turn = record { others = λ c. c; trip = trip; over = false; woken = true }

abbrev last : Turn Counts
last = record { others = λ c. c; trip = trip; over = true; woken = false }
