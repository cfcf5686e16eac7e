-- ===== src/RateLimit/Limiter/Examples.antt =====
-- A limiter of each kind over a database in memory, and the theorems at them.
use distsync.Common.{
  List, All, ◌≤◌, ℕ, ◌+◌, ◌*◌, ◌/◌, ◌≡◌, ◌⊎◌, inl, inr, refl, true, false, none, some, [], ◌∷◌,
  arith,
}
use distsync.Common.Int.{pos}
use distsync.Redis.{millisecond}
use distsync.Config.{key, contains}
use distsync.Lease.Core.{Trip, milliseconds, delivered, reply_lost, request_lost, invalid}
use distsync.RateLimit.{Turn}
use distsync.RateLimit.Limiter.{
  Double, finite, Limiter, token_bucket, sliding_window, leaky_bucket, per_second, one, new_limiter,
  selected, checked, rounded, allow, reset, window_ms,
}
use distsync.RateLimit.Limiter.Memory.{Db, memory_server, counter_laws, hash_laws, window_laws}
use distsync.RateLimit.Limiter.Limits.{IsSound, new_limiter-IsSound, new_limiter_again}
use distsync.RateLimit.Limiter.Requests.{IsAdmissible, allow_errors}
use distsync.RateLimit.Limiter.Cleared.{allow-reset}
use distsync.RateLimit.Limiter.Budget.{Call, InOrder, Timely, allowed_sum, budget}

-- Ten requests a second in a leaky bucket, of which the last option makes a sliding window
abbrev limiter : Limiter
limiter = record {
  name = b'n' ∷ [];
  key = b'{' ∷ b'n' ∷ b'}' ∷ [];
  capacity = 10 * one;
  rate = 10 * one;
  algorithm = sliding_window;
}

made :
    new_limiter
      (b'n' ∷ [])
      (per_second (finite (pos (10 * one))))
      (leaky_bucket ∷ sliding_window ∷ [])
    ≡ some limiter
unfolding new_limiter selected checked per_second key contains
made = refl

new_limiter-IsSound_example :
    (limiter.key ≡ key (b'n' ∷ []))
    × (limiter.algorithm ≡ selected token_bucket (leaky_bucket ∷ sliding_window ∷ []))
    × IsSound limiter
new_limiter-IsSound_example =
    new_limiter-IsSound (b'n' ∷ []) (per_second (finite (pos (10 * one))))
      (leaky_bucket ∷ sliding_window ∷ []) limiter made

limiter-IsSound : IsSound limiter
unfolding IsSound window_ms
limiter-IsSound =
    (omega arith, omega arith, omega arith, inr (omega arith, omega arith, omega arith))

named : limiter.key ≡ key limiter.name
unfolding key contains
named = refl

new_limiter_again_example :
    new_limiter limiter.name
      (record { per_second = finite (pos limiter.rate); capacity = finite (pos limiter.capacity) })
      (sliding_window ∷ [])
    ≡ some limiter
new_limiter_again_example = new_limiter_again limiter named limiter-IsSound

abbrev trip_at : ℕ → Trip
trip_at t = record {
  sent = t * millisecond;
  served = (t + 1) * millisecond;
  back = (t + 2) * millisecond;
  fate = delivered;
}

abbrev empty : Db
empty = (
  (λ _. record { n = 0; until = none }),
  (λ _. record { amounts = λ _. none; ts = none; until = none }),
  (λ _. record { members = []; until = none }),
)

-- Two and a half requests, which are three
abbrev some_requests : Double
some_requests = finite (pos (2 * one + one / 2))

allow_errors_example :
    (((allow memory_server limiter some_requests (b't' ∷ []) (trip_at 5) empty).1.error ≡ [])
      × IsAdmissible limiter some_requests)
    ⊎ (((allow memory_server limiter some_requests (b't' ∷ []) (trip_at 5) empty).1.error
          ≡ invalid ∷ [])
        × ((allow memory_server limiter some_requests (b't' ∷ []) (trip_at 5) empty).1.allowed
            ≡ false)
        × ((allow memory_server limiter some_requests (b't' ∷ []) (trip_at 5) empty).0 ≡ empty)
        × ¬ (IsAdmissible limiter some_requests))
allow_errors_example =
    allow_errors memory_server limiter some_requests (b't' ∷ []) (trip_at 5) empty refl

some_requests-IsAdmissible : IsAdmissible limiter some_requests
unfolding IsAdmissible rounded
some_requests-IsAdmissible = (2 * one + one / 2, refl, omega arith)

allow-reset_example :
    (allow memory_server limiter some_requests
      (b't' ∷ [])
      (trip_at 9)
      (reset memory_server limiter (trip_at 5) empty).0).1.allowed
    ≡ true
allow-reset_example =
    allow-reset memory_server counter_laws hash_laws window_laws limiter some_requests (b't' ∷ [])
      (trip_at 5) (trip_at 9) empty refl refl (omega arith) some_requests-IsAdmissible
      (inl (λ e. absurd (ground (arith, e))))

abbrev waiting : Turn Db
waiting = record { others = λ d. d; trip = trip_at 5; over = false; woken = true }

abbrev last : Turn Db
last = record { others = λ d. d; trip = trip_at 9; over = true; woken = false }

-- The same limiter with a token bucket
abbrev bucketed : Limiter
bucketed = record limiter { algorithm = token_bucket }

-- Three calls: one is answered, one gets no reply, one does not reach the server.
abbrev calls : List Call
calls =
    record { n = finite (pos (6 * one)); token = []; trip = trip_at 5 }
    ∷ record {
      n = some_requests;
      token = [];
      trip = record { sent = 9_000_000; served = 9_500_000; back = 10_000_000; fate = reply_lost };
    }
    ∷ record {
      n = some_requests;
      token = [];
      trip = record {
        sent = 11_000_000;
        served = 11_500_000;
        back = 12_000_000;
        fate = request_lost;
      };
    }
    ∷ []

in_order : InOrder 0 calls
unfolding InOrder
in_order = (omega arith, (omega arith, (omega arith, tt)))

timely : All (Timely 5 11) calls
unfolding milliseconds
timely = (
  (omega arith, omega arith, omega arith, omega arith),
  (
    (omega arith, omega arith, omega arith, omega arith),
    ((omega arith, omega arith, omega arith, omega arith), tt),
  ),
)

budget_example :
    allowed_sum memory_server bucketed (memory_server.hashes.del empty 0 bucketed.key) calls * 1_000
    ≤ 10 * one * 1_000 + 6 * (10 * one)
budget_example =
    budget memory_server hash_laws bucketed 0 empty calls 5 11 refl (omega arith) in_order timely
