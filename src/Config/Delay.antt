-- ===== src/Config/Delay.antt =====
-- The delay between two attempts, `delay` of options.go. Its doubles are taken as exact numbers; the
-- draw `r` of rand.Float64 stands for `r / 2 ^ 53`.
use distsync.Common.{ℕ, suc, ◌+◌, ◌*◌, ◌/◌, ◌^◌, ◌<◌, ◌≤◌, ◌≡◌, ltb, ◌==◌, if◌then◌else◌, arith}
use native.Mathlib.Nat.{mul-le-mul_left, pow-le-pow_right}
use distsync.Redis.{millisecond}
use distsync.Config.{RetryPolicy}

-- The defaults for a base or a maximum of zero
unfoldable pub base_of : RetryPolicy → ℕ
base_of p = if p.base == 0 then 50 * millisecond else p.base

unfoldable pub max_of : RetryPolicy → ℕ
max_of p = if p.max == 0 then 2_000 * millisecond else p.max

-- Before the jitter
unfoldable pub backoff : RetryPolicy → ℕ → ℕ
unfolding base_of max_of
backoff p attempt = let d = base_of p * 2 ^ attempt in if ltb (max_of p) d then max_of p else d

-- 2 ^ 53
abbrev pub draws : ℕ
draws = 9_007_199_254_740_992

unfoldable pub delay : RetryPolicy → ℕ → ℕ → ℕ
unfolding backoff
delay p attempt r = backoff p attempt * (4 * draws + 2 * r) / (5 * draws)

pub jittered :
    (b r : ℕ)
    → r < draws
    → (4 * b / 5 ≤ b * (4 * draws + 2 * r) / (5 * draws))
      × (b * (4 * draws + 2 * r) / (5 * draws) ≤ 6 * b / 5)
jittered b r lt =
    let h : b * r ≤ b * draws = mul-le-mul_left b (omega (arith, lt)) in
    let e : b * (4 * draws + 2 * r) ≡ 4 * (b * draws) + 2 * (b * r) = grind arith in
    (omega (arith, h, e), omega (arith, h, e))

grows : (b n : ℕ) → (b ≤ b * 2 ^ n) × (b * 2 ^ n ≤ b * 2 ^ suc n)
grows b n =
    let one : 2 ^ 0 ≤ 2 ^ n = pow-le-pow_right (omega arith) {i = 0} {j = n} (omega arith) in
    let next : 2 ^ n ≤ 2 ^ suc n =
      pow-le-pow_right (omega arith) {i = n} {j = suc n} (omega arith) in
    let h : b * 1 ≤ b * 2 ^ n = mul-le-mul_left b one in (omega (arith, h), mul-le-mul_left b next)

backoff-grows :
    (p : RetryPolicy) (attempt : ℕ)
    → base_of p ≤ max_of p
    → (base_of p ≤ backoff p attempt)
      × (backoff p attempt ≤ max_of p)
      × (backoff p attempt ≤ backoff p (suc attempt))
unfolding backoff
backoff-grows p attempt le =
    let (h, h') = grows (base_of p) attempt in
    (ground (arith, h, le), ground (arith, le), ground (arith, h, h', le))

-- Where the base is at most the maximum: the delay is between four fifths of the base and six fifths
-- of the maximum, whatever is drawn, and what the jitter varies does not fall from one attempt to the
-- next.
pub delay_bounds :
    (p : RetryPolicy) (attempt r : ℕ)
    → base_of p ≤ max_of p
    → r < draws
    → (4 * base_of p / 5 ≤ delay p attempt r)
      × (delay p attempt r ≤ 6 * max_of p / 5)
      × (backoff p attempt ≤ backoff p (suc attempt))
unfolding delay
delay_bounds p attempt r le lt =
    let (low, high, up) = backoff-grows p attempt le in
    let (above, below) = jittered (backoff p attempt) r lt in
    (omega (arith, low, above), omega (arith, high, below), up)
