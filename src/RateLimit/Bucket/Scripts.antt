-- ===== src/RateLimit/Bucket/Scripts.antt =====
-- Each script is a step of the meter, on what it reads of the hash.
use distsync.Common.{
  ℕ, ◌+◌, ◌-◌, ◌*◌, ◌≡◌, ◌∙◌, ap, not, Text, if◌then◌else◌, ltb, arith, Bool-cases, inl, inr, refl,
}
use distsync.Common.Int.{
  ℤ, pos, pos_part, sub_ℕ, ◌+ℤ◌, ◌-ℤ◌, times, ltb_ℤ, sub-eq, sub-add, sub-sub, times-sub, pos_sub,
  pos_part-sub,
}
use distsync.Redis.Hashes.{Hashes}
use distsync.RateLimit.Bucket.{
  Bucket, Verdict, or_default, ceil_div, idle, tokens, level, token_script, leaky_script,
  token_verdict, leaky_verdict,
}
use distsync.RateLimit.Bucket.Meter.{Meter, meter_step}

capped :
    (c n l : ℕ)
    → (if ltb_ℤ (pos c) (sub_ℕ (c + n) l) then pos c else sub_ℕ (c + n) l) ≡ sub_ℕ c (l - n)
capped c n l = ground arith

floored : (l n : ℕ) → (if ltb_ℤ (sub_ℕ l n) (pos 0) then pos 0 else sub_ℕ l n) ≡ pos (l - n)
floored l n = ground arith

minus_pos : (a b : ℕ) → pos a -ℤ pos b ≡ sub_ℕ (a + 0) (0 + b)
minus_pos a b = cc (pos_sub a, pos_sub b, sub-sub a 0 b 0)

module _ {H : Type 0} (redis : Hashes H) (bucket : Bucket) where
  open redis use {amount, stamp, hset, pexpire}

  -- What both scripts write
  unfoldable pub store : H → ℕ → Text → ℤ → ℕ → H
  store h t field v now = pexpire (hset h t bucket.key field v now) t bucket.key (idle bucket)

  token_rest : H → (t now requested : ℕ) → ℤ → H × Verdict
  unfolding store
  token_rest h t now requested refilled =
      let allowed = not (ltb_ℤ refilled (pos requested)) in
      (
        store h t tokens (if allowed then refilled -ℤ pos requested else refilled) now,
        (
          allowed,
          if allowed then 0 else ceil_div (pos_part (pos requested -ℤ refilled)) bucket.rate,
        ),
      )

  token_rest_lem :
      (h : H) (t now q d : ℕ)
      → token_rest h t now q (sub_ℕ bucket.capacity d) ≡ (
        store h t tokens
            (sub_ℕ bucket.capacity (if not (ltb bucket.capacity (d + q)) then d + q else d))
            now,
        (
          not (ltb bucket.capacity (d + q)),
          if not (ltb bucket.capacity (d + q))
              then 0
              else ceil_div (d + q - bucket.capacity) bucket.rate,
        ),
      )
  unfolding token_rest
  token_rest_lem h t now q d =
      let c = bucket.capacity in
      let e1 : ltb_ℤ (sub_ℕ c d) (pos q) ≡ ltb c (d + q) = ground arith in
      let e2 : sub_ℕ c d -ℤ pos q ≡ sub_ℕ c (d + q) =
        ap (λ u. sub_ℕ c d -ℤ u) (pos_sub q) ∙ sub-sub c d q 0 ∙ sub-eq _ _ _ _ (omega arith) in
      let e3 : pos_part (pos q -ℤ sub_ℕ c d) ≡ d + q - c =
        ap (λ u. pos_part (u -ℤ sub_ℕ c d)) (pos_sub q)
        ∙ ap pos_part (sub-sub q 0 c d)
        ∙ pos_part-sub _ _
        ∙ omega arith in
      elim (Bool-cases (ltb c (d + q))) [
        | inl e ↦ rw (e1, e, e3) refl
        | inr e ↦ rw (e1, e, e2) refl
      ]

  -- The bucket of tokens holds what the level leaves of the capacity.
  pub token_verdict-meter :
      (h : H) (t now q : ℕ) (m : Meter)
      → or_default (amount h t bucket.key tokens) (pos bucket.capacity)
        ≡ sub_ℕ bucket.capacity m.level
      → or_default (stamp h t bucket.key) now ≡ m.since
      → token_verdict redis bucket h t now q ≡ (
        store h t tokens (sub_ℕ bucket.capacity (meter_step bucket m now q).0.level) now,
        (meter_step bucket m now q).1,
      )
  unfolding token_script token_verdict meter_step token_rest store
  token_verdict-meter h t now q m e e' =
      let (c, r) : ℕ × ℕ = (bucket.capacity, bucket.rate) in
      let sum : or_default (amount h t bucket.key tokens) (pos c)
            +ℤ times (sub_ℕ now (or_default (stamp h t bucket.key) now)) r
          ≡ sub_ℕ (c + now * r) (m.level + m.since * r) =
        rw (e, e', times-sub now m.since r) (sub-add c m.level (now * r) (m.since * r)) in
      ap (λ u. token_rest h t now q (if ltb_ℤ (pos c) u then pos c else u)) sum
      ∙ ap (token_rest h t now q) (capped c (now * r) (m.level + m.since * r))
      ∙ token_rest_lem h t now q (m.level + m.since * r - now * r)

  leaky_rest : H → (t now requested : ℕ) → ℤ → H × Verdict
  unfolding store
  leaky_rest h t now requested drained =
      let new_level = drained +ℤ pos requested in
      let allowed = not (ltb_ℤ (pos bucket.capacity) new_level) in
      (
        store h t level (if allowed then new_level else drained) now,
        (
          allowed,
          if allowed then 0 else ceil_div (pos_part (new_level -ℤ pos bucket.capacity)) bucket.rate,
        ),
      )

  leaky_rest_lem :
      (h : H) (t now q d : ℕ)
      → leaky_rest h t now q (pos d) ≡ (
        store h t level (pos (if not (ltb bucket.capacity (d + q)) then d + q else d)) now,
        (
          not (ltb bucket.capacity (d + q)),
          if not (ltb bucket.capacity (d + q))
              then 0
              else ceil_div (d + q - bucket.capacity) bucket.rate,
        ),
      )
  unfolding leaky_rest
  leaky_rest_lem h t now q d =
      let c = bucket.capacity in
      let e1 : pos d +ℤ pos q ≡ pos (d + q) =
        cc (pos_sub d, pos_sub q, pos_sub (d + q), sub-add d 0 q 0) in
      let e0 : ltb_ℤ (pos c) (pos (d + q)) ≡ ltb c (d + q) = ground arith in
      let e3 : pos_part (pos (d + q) -ℤ pos c) ≡ d + q - c =
        ap pos_part (minus_pos (d + q) c) ∙ pos_part-sub (d + q + 0) (0 + c) ∙ omega arith in
      elim (Bool-cases (ltb c (d + q))) [
        | inl e ↦ rw (e1, e0, e, e3) refl
        | inr e ↦ rw (e1, e0, e) refl
      ]

  pub leaky_verdict-meter :
      (h : H) (t now q : ℕ) (m : Meter)
      → or_default (amount h t bucket.key level) (pos 0) ≡ pos m.level
      → or_default (stamp h t bucket.key) now ≡ m.since
      → leaky_verdict redis bucket h t now q ≡ (
        store h t level (pos (meter_step bucket m now q).0.level) now,
        (meter_step bucket m now q).1,
      )
  unfolding leaky_script leaky_verdict meter_step leaky_rest store
  leaky_verdict-meter h t now q m e e' =
      let (c, r) : ℕ × ℕ = (bucket.capacity, bucket.rate) in
      let rest : or_default (amount h t bucket.key level) (pos 0)
            -ℤ times (sub_ℕ now (or_default (stamp h t bucket.key) now)) r
          ≡ sub_ℕ (m.level + m.since * r) (now * r) =
        rw (e, e', times-sub now m.since r)
          (ap (λ u. u -ℤ sub_ℕ (now * r) (m.since * r)) (pos_sub m.level)
            ∙ sub-sub m.level 0 (now * r) (m.since * r)
            ∙ sub-eq _ _ _ _ (omega arith)) in
      ap (λ u. leaky_rest h t now q (if ltb_ℤ u (pos 0) then pos 0 else u)) rest
      ∙ ap (leaky_rest h t now q) (floored (m.level + m.since * r) (now * r))
      ∙ leaky_rest_lem h t now q (m.level + m.since * r - now * r)
