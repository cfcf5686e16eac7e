-- ===== src/RateLimit/Bucket/Bounds.antt =====
-- What a bucket lets through, and when it lets a refused request through.
use distsync.Common.{
  ℕ, ◌+◌, ◌-◌, ◌*◌, ◌≤◌, ◌<◌, ◌≡◌, ◌∙◌, sym, ap, refl, subst, Bool, false, List, [], ◌∷◌, ◌++◌, leb,
  if◌then◌else◌, arith, All,
}
use native.Mathlib.Nat.{mul-le-mul_right}
use distsync.Redis.Hashes.{Hashes, HashLaws}
use distsync.RateLimit.Bucket.{Bucket, Verdict, token_verdict}
use distsync.RateLimit.Bucket.Meter.{Meter, meter_step, meter_retry}
use distsync.RateLimit.Bucket.Refine.{Ask, Near, run, meter_run, empty, token_run-meter}

-- What was granted of some requests, by the replies to them
unfoldable pub granted : List Ask → List Verdict → ℕ
granted [] replies = 0
granted (a ∷ as') [] = 0
granted (a ∷ as') ((allowed, retry) ∷ replies) =
    let rest = granted as' replies in if allowed then a.requested + rest else rest

-- The replies without those to the first requests
unfoldable pub later : List Ask → List Verdict → List Verdict
later [] replies = replies
later (b ∷ before) [] = []
later (b ∷ before) (reply ∷ replies) = later before replies

meter_after : Bucket → Meter → List Ask → Meter
meter_after bucket m [] = m
meter_after bucket m (a ∷ as') = meter_after bucket (meter_step bucket m a.now a.requested).0 as'

later-meter_run :
    (bucket : Bucket) (m : Meter) (before asks : List Ask)
    → later before (meter_run bucket m (before ++ asks))
      ≡ meter_run bucket (meter_after bucket m before) asks
unfolding later meter_run meter_after meter_step
later-meter_run bucket m [] asks = refl
later-meter_run bucket m (b ∷ before) asks =
    later-meter_run bucket (meter_step bucket m b.now b.requested).0 before asks

-- The level with what would have drained until its time
abbrev potential : Bucket → Meter → ℕ
potential bucket m = m.level + m.since * bucket.rate

meter_after-bounded :
    (bucket : Bucket) (m : Meter) (before : List Ask) (hi : ℕ)
    → All (λ a. a.now ≤ hi) before
    → potential bucket m ≤ bucket.capacity + hi * bucket.rate
    → potential bucket (meter_after bucket m before) ≤ bucket.capacity + hi * bucket.rate
unfolding meter_after meter_step
meter_after-bounded bucket m [] hi shown b = b
meter_after-bounded bucket m (a ∷ before) hi (le, shown) b =
    let h : a.now * bucket.rate ≤ hi * bucket.rate = mul-le-mul_right bucket.rate le in
    meter_after-bounded bucket (meter_step bucket m a.now a.requested).0 before hi shown
      (ground (arith, h, b))

-- What is granted adds to the potential, which the capacity and the clock bound.
granted-potential :
    (bucket : Bucket) (m : Meter) (asks : List Ask) (hi : ℕ)
    → All (λ a. a.now ≤ hi) asks
    → potential bucket m ≤ bucket.capacity + hi * bucket.rate
    → potential bucket m + granted asks (meter_run bucket m asks)
      ≤ bucket.capacity + hi * bucket.rate
unfolding granted meter_run meter_step
granted-potential bucket m [] hi shown b = omega (arith, b)
granted-potential bucket m (a ∷ as') hi (le, shown) b =
    let h : a.now * bucket.rate ≤ hi * bucket.rate = mul-le-mul_right bucket.rate le in
    let m' = (meter_step bucket m a.now a.requested).0 in
    let rest = granted-potential bucket m' as' hi shown (ground (arith, h, b)) in
    ground (arith, h, b, rest)

meter_granted :
    (bucket : Bucket) (m : Meter) (asks : List Ask) (lo hi : ℕ)
    → All (λ a. lo ≤ a.now) asks
    → All (λ a. a.now ≤ hi) asks
    → potential bucket m ≤ bucket.capacity + hi * bucket.rate
    → granted asks (meter_run bucket m asks) ≤ bucket.capacity + (hi - lo) * bucket.rate
unfolding granted meter_run meter_step
meter_granted bucket m [] lo hi from shown b = omega arith
meter_granted bucket m (a ∷ as') lo hi (ge, from) (le, shown) b =
    let r = bucket.rate in
    let h : a.now * r ≤ hi * r = mul-le-mul_right r le in
    let m' = (meter_step bucket m a.now a.requested).0 in
    let rest = granted-potential bucket m' as' hi shown (ground (arith, h, b)) in
    let start : lo * r ≤ a.now * r = mul-le-mul_right r ge in
    let back : hi ≡ lo + (hi - lo) = omega (arith, ge, le) in
    let sum : (lo + (hi - lo)) * r ≡ lo * r + (hi - lo) * r = grind arith in
    let sum' : hi * r ≡ lo * r + (hi - lo) * r =
      subst (λ u. u * r ≡ lo * r + (hi - lo) * r) (sym back) sum in
    ground (arith, h, b, rest, start, sum')

module _ {H : Type 0} (redis : Hashes H) (laws : HashLaws redis) (bucket : Bucket) where
  open redis use {del}

  -- In any stretch of the requests to a token bucket, at most the capacity and what the rate gives
  -- for the time of the stretch is granted, on clocks within half a second of the server's.
  pub token_bound :
      (t : ℕ) (h : H) (before asks : List Ask) (lo hi : ℕ)
      → 0 < bucket.rate
      → Near t (before ++ asks)
      → All (λ a. a.now ≤ hi) before
      → All (λ a. lo ≤ a.now) asks
      → All (λ a. a.now ≤ hi) asks
      → granted asks
          (later before (run (token_verdict redis bucket) t (del h t bucket.key) (before ++ asks)))
        ≤ bucket.capacity + (hi - lo) * bucket.rate
  token_bound t h before asks lo hi some_rate near earlier from until =
      rw
        (
          token_run-meter redis laws bucket t h (before ++ asks) some_rate near,
          later-meter_run bucket empty before asks,
        )
        (meter_granted bucket (meter_after bucket empty before) asks lo hi from until
          (meter_after-bounded bucket empty before hi earlier (omega arith)))

  -- A request that the token bucket refused is granted, when it is asked again next, if and only if
  -- the time that the refusal named is over.
  pub token_retry :
      (t : ℕ) (h : H) (before : List Ask) (a b : Ask) (w w' : ℕ) (again : Bool)
      → 0 < bucket.rate
      → Near t (before ++ a ∷ b ∷ [])
      → a.requested ≤ bucket.capacity
      → b.requested ≡ a.requested
      → later before
          (run (token_verdict redis bucket) t (del h t bucket.key) (before ++ a ∷ b ∷ []))
        ≡ (false, w) ∷ (again, w') ∷ []
      → again ≡ leb (a.now + w) b.now
  unfolding meter_run
  token_retry t h before a b w w' again some_rate near fits same e =
      let m = meter_after bucket empty before in
      let replies : meter_run bucket m (a ∷ b ∷ []) ≡ (false, w) ∷ (again, w') ∷ [] =
        sym (later-meter_run bucket empty before (a ∷ b ∷ []))
        ∙ ap (later before)
            (sym (token_run-meter redis laws bucket t h (before ++ a ∷ b ∷ []) some_rate near))
        ∙ e in
      let first : (meter_step bucket m a.now a.requested).1 ≡ (false, w) = cc in
      let second : (meter_step bucket (meter_step bucket m a.now a.requested).0 b.now b.requested).1
          ≡ (again, w') =
        cc in
      let retry = meter_retry bucket m a.now b.now a.requested w some_rate fits first in
      ap (λ u. u.0) (sym second)
      ∙ ap (λ q. (meter_step bucket (meter_step bucket m a.now a.requested).0 b.now q).1.0) same
      ∙ retry
