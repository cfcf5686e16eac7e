-- ===== src/RateLimit/Limiter/Cleared.antt =====
-- Reset empties a limiter, whatever its algorithm.
use distsync.Common.{
  ℕ, ◌*◌, ◌/◌, ◌≤◌, ◌≡◌, ◌≢◌, ◌⊎◌, ◌∙◌, ap, inl, inr, refl, subst, true, false, Text, arith,
  Bool-cases, ltb, ◌==◌,
}
use distsync.Common.Int.{sub_ℕ, pos_sub}
use native.Mathlib.Nat.{div-mul-le_self, le-div_iff_mul-le, le_trans}
use distsync.Redis.Counting.{Counters, CounterLaws}
use distsync.Redis.Hashes.{Hashes, HashLaws}
use distsync.Redis.Windows.{Windows, WindowLaws}
use distsync.Lease.Core.{Trip, delivered, milliseconds}
use distsync.RateLimit.{ratelimit_fixed, fixed_window_key}
use distsync.RateLimit.Bucket.{
  Bucket, token_script, leaky_script, token_verdict, leaky_verdict, tokens, level,
}
use distsync.RateLimit.Bucket.Meter.{meter_step}
use distsync.RateLimit.Bucket.Scripts.{token_verdict-meter, leaky_verdict-meter}
use distsync.RateLimit.Sliding.{Window, sliding_script}
use distsync.RateLimit.Limiter.{
  Double, Limiter, Algorithm, token_bucket, fixed_window, sliding_window, leaky_bucket, rounded,
  Server, ask, allow, reset, cleared, fixed_of, bucket_of, window_of, window_ms, one,
}
use distsync.RateLimit.Limiter.Requests.{IsAdmissible}

whole_le : (m n : ℕ) → m ≤ n → m / one ≤ n / one
whole_le m n le =
    let h : m / one * one ≤ m = div-mul-le_self m one in
    (le-div_iff_mul-le {k = one} (omega arith)).1 (le_trans h le)

module _ {H : Type 0} (redis : Hashes H) (laws : HashLaws redis) (bucket : Bucket) (h : H)
    (t t' now q : ℕ) (le : t ≤ t') (fits : q ≤ bucket.capacity) where
  meter_fits : (meter_step bucket (record { level = 0; since = now }) now q).1.0 ≡ true
  unfolding meter_step
  meter_fits = ground (arith, fits)

  token-del : (token_script redis bucket (redis.del h t bucket.key) t' now q).1.0 ≡ true
  unfolding token_verdict
  token-del =
      let h' = redis.del h t bucket.key in
      ap (λ u. u.1.0)
        (token_verdict-meter redis bucket h' t' now q (record { level = 0; since = now })
          (rw (laws.amount-del h t t' bucket.key tokens le) (pos_sub bucket.capacity))
          (rw (laws.stamp-del h t t' bucket.key le) refl))
      ∙ meter_fits

  leaky-del : (leaky_script redis bucket (redis.del h t bucket.key) t' now q).1.0 ≡ true
  unfolding leaky_verdict
  leaky-del =
      let h' = redis.del h t bucket.key in
      ap (λ u. u.1.0)
        (leaky_verdict-meter redis bucket h' t' now q (record { level = 0; since = now })
          (rw (laws.amount-del h t t' bucket.key level le) refl)
          (rw (laws.stamp-del h t t' bucket.key le) refl))
      ∙ meter_fits

sliding-del :
    {W : Type 0} (redis : Windows W) (laws : WindowLaws redis) (window : Window) (w : W)
    (t t' now n : ℕ) (token : Text)
    → t ≤ t'
    → n ≤ window.limit
    → (sliding_script redis window (redis.del w t window.key) t' now n token).1.0 ≡ true
unfolding sliding_script
sliding-del redis laws window w t t' now n token le fits =
    let min = sub_ℕ now window.length in
    let card : redis.zcard (redis.zremrangebyscore (redis.del w t window.key) t' window.key min) t'
          window.key
        ≡ 0 =
      laws.zcard-zremrangebyscore (redis.del w t window.key) t' window.key min
      ∙ laws.zcount-del w t t' window.key min le in
    ground (arith, card, fits)

fixed-del :
    {C : Type 0} (redis : Counters C) (laws : CounterLaws redis) (c : C) (t t' : ℕ) (k k' : Text)
    (limit window now n : ℕ)
    → k ≡ k'
    → t ≤ t'
    → n ≤ limit
    → (ratelimit_fixed redis (redis.del c t k) t' k' limit window now n).1.allowed ≡ true
unfolding ratelimit_fixed
fixed-del redis laws c t t' k k' limit window now n e le fits =
    let count = laws.incrby-count (redis.del c t k) t' k' n in
    let zero_left : redis.value (redis.del c t k) t' k' ≡ 0 =
      subst (λ u. redis.value (redis.del c t k) t' u ≡ 0) e (laws.value-del c t t' k le) in
    ground (arith, count, zero_left, fits)

module _ {D : Type 0} (server : Server D) (counters : CounterLaws server.counters)
    (hashes : HashLaws server.hashes) (windows : WindowLaws server.windows) where
  -- By the algorithm `a`
  ask-cleared :
      (rl : Limiter) (a : Algorithm) (n : ℕ) (token : Text) (first second : Trip) (d : D)
      → second.fate ≡ delivered
      → first.served ≤ second.served
      → n ≤ rl.capacity
      → (a ≢ fixed_window)
        ⊎ (fixed_window_key (fixed_of rl) (milliseconds first.sent)
            ≡ fixed_window_key (fixed_of rl) (milliseconds second.sent))
      → (let l = record rl { algorithm = a } in
          (ask server l n token second (cleared server l first d)).1.allowed ≡ true)
  unfolding ask cleared bucket_of window_of fixed_of
  ask-cleared rl token_bucket n token first second d f le fits same = rw f (
      token-del server.hashes hashes (bucket_of rl) d first.served second.served
        (milliseconds second.sent) (n * 1_000) le (omega (arith, fits)))
  ask-cleared rl leaky_bucket n token first second d f le fits same = rw f (
      leaky-del server.hashes hashes (bucket_of rl) d first.served second.served
        (milliseconds second.sent) (n * 1_000) le (omega (arith, fits)))
  ask-cleared rl sliding_window n token first second d f le fits same = rw f (
      sliding-del server.windows windows (window_of rl) d first.served second.served
        (milliseconds second.sent) (n / one) token le (whole_le n rl.capacity fits))
  ask-cleared rl fixed_window n token first second d f le fits (inl ne) = absurd (ne refl)
  ask-cleared rl fixed_window n token first second d f le fits (inr same) = rw f (
      fixed-del server.counters counters d first.served second.served _ _ (rl.capacity / one)
        (window_ms rl) (milliseconds second.sent) (n / one) same le (whole_le n rl.capacity fits))

  -- After a Reset that the server answered, the next admissible request is granted if it is answered
  -- too; for a fixed window, if both are made in the same window.
  pub allow-reset :
      (rl : Limiter) (x : Double) (token : Text) (first second : Trip) (d : D)
      → first.fate ≡ delivered
      → second.fate ≡ delivered
      → first.served ≤ second.served
      → IsAdmissible rl x
      → (rl.algorithm ≢ fixed_window)
        ⊎ (fixed_window_key (fixed_of rl) (milliseconds first.sent)
            ≡ fixed_window_key (fixed_of rl) (milliseconds second.sent))
      → (allow server rl x token second (reset server rl first d).0).1.allowed ≡ true
  unfolding allow reset IsAdmissible
  allow-reset rl x token first second d f f' le (n, e, fits) same =
      rw (e, f)
        (elim (Bool-cases (n == 0)) [
          | inl z ↦ rw z refl
          | inr nz ↦
              let in_capacity : ltb rl.capacity (rounded rl.algorithm n) ≡ false =
                ground (arith, fits) in
              rw (nz, in_capacity)
                (ask-cleared rl rl.algorithm (rounded rl.algorithm n) token first second d f' le
                  fits same)
        ])
