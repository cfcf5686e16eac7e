-- ===== src/RateLimit/Sliding/Examples.antt =====
-- Runs of the sliding window over sorted sets in memory, and the theorems at them.
use distsync.Common.{
  ℕ, none, ◌≢◌, ◌*◌, ◌≤◌, ◌<◌, ◌≡◌, refl, true, false, [], ◌∷◌, List, Text, arith, ltb, ◌&&◌,
  ℕ_discrete, Text_discrete,
}
use distsync.Common.Int.{pos, ◌-ℤ◌}
use distsync.Common.Decimal.{decimal}
use distsync.Redis.{millisecond}
use distsync.Redis.Memory.{put, insert}
use distsync.Redis.Memory.WindowProofs.{
  Sets, memory_windows, memory_window_laws, count, size, drop_to, first, at, store, expire, clear,
}
use distsync.Lease.Core.{milliseconds}
use distsync.RateLimit.Sliding.{Window, add_entries, sliding_script}
use distsync.RateLimit.Sliding.Log.{Request, log_run, in_window, used}
use distsync.RateLimit.Sliding.Refine.{InTime, TokensApart, run, sliding_run-log, sliding_run_bound}
use distsync.RateLimit.Sliding.Retry.{sliding_retry}

-- Three requests a second
abbrev window : Window
window = record { key = b'k' ∷ []; limit = 3; length = 1_000 }

abbrev digits : ℕ → Text
digits d =
    d ∷ d ∷ d ∷ d ∷ d ∷ d ∷ d ∷ d ∷ d ∷ d ∷ d ∷ d ∷ d ∷ d ∷ d ∷ d ∷ d ∷ d ∷ d ∷ d ∷ d ∷ d ∷ d ∷ d
    ∷ d ∷ d ∷ d ∷ d ∷ d ∷ d ∷ d ∷ d ∷ []

abbrev unused : Sets
unused = λ _. record { members = []; until = none }

-- Two fit, two more do not, and do when the first two are a second old.
abbrev asks : List Request
asks =
    record { delay = 100 * millisecond; now = 99; n = 2; token = digits b'a' }
    ∷ record { delay = 500 * millisecond; now = 600; n = 2; token = digits b'b' }
    ∷ record { delay = 500 * millisecond; now = 1_099; n = 2; token = digits b'c' }
    ∷ []

in_time : InTime window 0 0 asks
unfolding InTime milliseconds
in_time = (
  omega arith,
  omega arith,
  omega arith,
  (omega arith, omega arith, omega arith, (omega arith, omega arith, omega arith, tt)),
)

apart : (c d : ℕ) → c ≢ d → digits c ≢ digits d
apart c d ne e = ne cc

tokens : TokensApart asks
unfolding TokensApart
tokens = (
  refl,
  (
    (refl, apart b'a' b'b' (λ e. omega (arith, e))),
    ((refl, apart b'a' b'c' (λ e. omega (arith, e))), tt),
  ),
  (refl, ((refl, apart b'b' b'c' (λ e. omega (arith, e))), tt), (refl, tt, tt)),
)

sliding_run-log_example :
    run memory_windows window 0 (clear unused window.key) asks ≡ log_run window [] asks
sliding_run-log_example =
    sliding_run-log memory_windows memory_window_laws window 0 unused asks in_time tokens

logged : log_run window [] asks ≡ true ∷ false ∷ true ∷ []
unfolding log_run used
logged = refl

sliding_run_bound_example :
    in_window 1_000 1_098 asks (run memory_windows window 0 (clear unused window.key) asks) ≤ 3
sliding_run_bound_example =
    sliding_run_bound memory_windows memory_window_laws window 0 unused asks 1_098 in_time tokens

-- Two entries of the time 99
abbrev busy : Sets
busy = λ _. record { members = (b'x' ∷ [], 99) ∷ (b'y' ∷ [], 99) ∷ []; until = none }

abbrev refused : Sets
refused = (sliding_script memory_windows window busy (600 * millisecond) 600 2 (digits b'b')).0

told :
    sliding_script memory_windows window busy (600 * millisecond) 600 2 (digits b'b')
    ≡ (refused, (false, 0, pos 499))
unfolding sliding_script add_entries count size drop_to first at store expire put insert decimal
    ◌-ℤ◌ Text_discrete ℕ_discrete
told = refl

sliding_retry_example :
    (0 < 499)
    × ((ltb 1_098 1_099
          && (sliding_script memory_windows window refused
              (1_100 * millisecond)
              1_098
              2
              (digits b'c')).1.0)
        ≡ false)
sliding_retry_example =
    sliding_retry memory_windows memory_window_laws window busy refused (600 * millisecond) 600 2
      (digits b'b') (pos 499) (1_100 * millisecond) 1_098 (digits b'c') (omega arith) told
      (omega arith) (omega arith)
