-- ===== src/RateLimit/Bucket/Meter.antt =====
-- What a bucket promises: a level that falls at the rate of the bucket and rises by what is granted,
-- never above the capacity. It knows no database, no timeout and no signed number.
use distsync.Common.{
  ℕ, ◌+◌, ◌-◌, ◌*◌, ◌<◌, ◌≤◌, ◌≡◌, leb, dec_lt, Bool-cases, inl, inr, true, false, not,
  if◌then◌else◌, ltb, arith, ap, subst,
}
use native.Mathlib.Nat.{mul-le-mul_right, lt-div-mul-add, div-mul-le_self}
use distsync.RateLimit.Bucket.{Bucket, Verdict, ceil_div}

-- The level that the bucket had at a time of the clients' clocks.
pub record Meter : Type 0 where
  pub level : ℕ
  pub since : ℕ

unfoldable pub meter_step : Bucket → Meter → (now requested : ℕ) → Meter × Verdict
meter_step bucket m now requested =
    let drained = m.level + m.since * bucket.rate - now * bucket.rate in
    let allowed = not (ltb bucket.capacity (drained + requested)) in
    (
      record { level = if allowed then drained + requested else drained; since = now },
      (
        allowed,
        if allowed then 0 else ceil_div (drained + requested - bucket.capacity) bucket.rate,
      ),
    )

pub ceil_div_lem : (a b : ℕ) → 0 < b → a ≤ ceil_div a b * b
ceil_div_lem a b some_rate =
    let h : a + b - 1 < ceil_div a b * b + b = lt-div-mul-add some_rate in
    omega (arith, h, some_rate)

ceil_div_least : (a b n : ℕ) → 0 < b → a ≤ n * b → ceil_div a b ≤ n
ceil_div_least a b n some_rate le = elim (dec_lt n (ceil_div a b)) [
  | no h ↦ omega (arith, h)
  | yes h ↦
      let more : (n + 1) * b ≤ ceil_div a b * b = mul-le-mul_right b (omega (arith, h)) in
      let below : ceil_div a b * b ≤ a + b - 1 = div-mul-le_self (a + b - 1) b in
      let sum : (n + 1) * b ≡ n * b + b = grind arith in
      absurd (omega (arith, more, below, sum, le, some_rate))
]

retry_fits :
    (c r d q now now' w : ℕ)
    → 0 < r
    → q ≤ c
    → c < d + q
    → w ≡ ceil_div (d + q - c) r
    → not (ltb c (d + now * r - now' * r + q)) ≡ leb (now + w) now'
retry_fits c r d q now now' w some_rate fits over e =
    let enough : d + q - c ≤ w * r = rw e (ceil_div_lem (d + q - c) r some_rate) in
    elim (Bool-cases (leb (now + w) now')) [
      | inl h ↦
          let passed : (now + w) * r ≤ now' * r = mul-le-mul_right r (ground (arith, h)) in
          let sum : (now + w) * r ≡ now * r + w * r = grind arith in
          ground (arith, h, passed, sum, enough, fits, over)
      | inr h ↦ elim (dec_lt now' now) [
        | yes back ↦
            let passed : now' * r ≤ now * r = mul-le-mul_right r (omega (arith, back)) in
            ground (arith, h, passed, over)
        | no on ↦ elim (dec_lt ((now' - now) * r) (d + q - c)) [
          | no long ↦
              let least : ceil_div (d + q - c) r ≤ now' - now =
                ceil_div_least (d + q - c) r (now' - now) some_rate (omega (arith, long)) in
              absurd (ground (arith, h, on, e, least))
          | yes short ↦
              let back : now + (now' - now) ≡ now' = omega (arith, on) in
              let sum : (now + (now' - now)) * r ≡ now * r + (now' - now) * r = grind arith in
              let sum' : now' * r ≡ now * r + (now' - now) * r =
                subst (λ u. u * r ≡ now * r + (now' - now) * r) back sum in
              ground (arith, h, short, sum', over)
        ]
      ]
    ]

-- Asked again, a request that was refused is granted from the time on that the reply named, and not
-- before.
pub meter_retry :
    (bucket : Bucket) (m : Meter) (now now' q w : ℕ)
    → 0 < bucket.rate
    → q ≤ bucket.capacity
    → (meter_step bucket m now q).1 ≡ (false, w)
    → (meter_step bucket (meter_step bucket m now q).0 now' q).1.0 ≡ leb (now + w) now'
unfolding meter_step
meter_retry bucket m now now' q w some_rate fits e =
    let (c, r, d) : ℕ × ℕ × ℕ =
      (bucket.capacity, bucket.rate, m.level + m.since * bucket.rate - now * bucket.rate) in
    let refused : ltb c (d + q) ≡ true = ground (arith, ap (λ u. u.0) e) in
    let wait : w ≡ ceil_div (d + q - c) r = ground (arith, ap (λ u. u.1) e, refused) in
    rw refused (retry_fits c r d q now now' w some_rate fits (ground (arith, refused)) wait)
