-- ===== src/RateLimit/Limiter/Limits.antt =====
-- What the constructor lets through.
use distsync.Common.{
  ℕ, ◌-◌, ◌*◌, ◌/◌, ◌^◌, ◌<◌, ◌≤◌, ◌≡◌, ◌⊎◌, inl, inr, refl, sym, ◌∙◌, false, ◌||◌, some, List, [],
  ◌∷◌, Text, arith, Bool-cases, ltb, some_eq, subst, Option-cases,
}
use native.Mathlib.Nat.{le-div_iff_mul-le}
use distsync.Common.Int.{pos}
use distsync.Config.{key}
use distsync.RateLimit.Limiter.{
  Double, finite, Algorithm, token_bucket, is_windowed, Rate, Limiter, positive, selected,
  max_window, one, checked, new_limiter, window_ms,
}

-- The rate and the capacity are positive, and the time in which the bucket fills fits a duration; a
-- window has a millisecond and takes a request, and its count is exact in a double.
unfoldable pub IsSound : Limiter → Type 0
IsSound rl =
    (0 < rl.rate)
    × (0 < rl.capacity)
    × (rl.capacity * 1_000 ≤ max_window * rl.rate)
    × ((is_windowed rl.algorithm ≡ false)
        ⊎ ((0 < window_ms rl) × (0 < rl.capacity / one) × (rl.capacity ≤ (2 ^ 53 - 1) * one)))

positive-some : (x : Double) (n : ℕ) → positive x ≡ some n → 0 < n
positive-some x n e = ground (arith, e)

checked-IsSound :
    (l rl : Limiter) → 0 < l.rate → 0 < l.capacity → checked l ≡ some rl → (l ≡ rl) × IsSound l
unfolding checked IsSound window_ms
checked-IsSound l rl r c e = elim (Bool-cases (ltb (max_window * l.rate) (l.capacity * 1_000))) [
  | inl h ↦ absurd (ground (arith, e, h))
  | inr h ↦ elim (Bool-cases (is_windowed l.algorithm)) [
    | inr w ↦ (some_eq (ground (arith, e, h, w)), (r, c, ground (arith, h), inl w))
    | inl w ↦
        elim (Bool-cases (
          ltb (l.capacity * 1_000) l.rate
          || ltb l.capacity one
          || ltb ((2 ^ 53 - 1) * one) l.capacity)) [
            | inl b ↦ absurd (ground (arith, e, h, w, b))
            | inr b ↦ (
              some_eq (ground (arith, e, h, w, b)),
              (
                r,
                c,
                ground (arith, h),
                inr (
                  (le-div_iff_mul-le r).1 (ground (arith, b)),
                  (le-div_iff_mul-le {k = one} (omega arith)).1 (ground (arith, b)),
                  ground (arith, b),
                ),
              ),
            )
          ]
  ]
]

-- A limiter that the constructor lets through has the key of its name, the algorithm that the last
-- option selects, or the token bucket, and is sound.
pub new_limiter-IsSound :
    (name : Text) (rate : Rate) (opts : List Algorithm) (rl : Limiter)
    → new_limiter name rate opts ≡ some rl
    → (rl.key ≡ key name) × (rl.algorithm ≡ selected token_bucket opts) × IsSound rl
unfolding new_limiter
new_limiter-IsSound name rate opts rl e = elim (Option-cases (positive rate.per_second)) [
  | inl h ↦ absurd (ground (arith, e, h))
  | inr (r, h) ↦ elim (Option-cases (positive rate.capacity)) [
    | inl h' ↦ absurd (ground (arith, e, h, h'))
    | inr (c, h') ↦
        let l : Limiter = record {
          name = name;
          key = key name;
          capacity = c;
          rate = r;
          algorithm = selected token_bucket opts;
        } in
        let made : checked l ≡ some rl = sym (rw (h, h') refl) ∙ e in
        let (same, sound) : (l ≡ rl) × IsSound l =
          checked-IsSound l rl (positive-some rate.per_second r h)
            (positive-some rate.capacity c h') made in
        subst (λ u. (u.key ≡ key name) × (u.algorithm ≡ selected token_bucket opts) × IsSound u)
          same (refl, refl, sound)
  ]
]

-- A sound limiter with the key of its name is what the constructor makes of its name, its rate, its
-- capacity and its algorithm.
pub new_limiter_again :
    (rl : Limiter)
    → rl.key ≡ key rl.name
    → IsSound rl
    → new_limiter rl.name
        (record { per_second = finite (pos rl.rate); capacity = finite (pos rl.capacity) })
        (rl.algorithm ∷ [])
      ≡ some rl
unfolding new_limiter IsSound checked selected window_ms
new_limiter_again rl e (r, c, h, inl w) = ground (arith, e, r, c, h, w)
new_limiter_again rl e (r, c, h, inr (long, takes, exact)) =
    let long' : 1 * rl.rate ≤ rl.capacity * 1_000 = (le-div_iff_mul-le r).0 long in
    let takes' : 1 * one ≤ rl.capacity = (le-div_iff_mul-le {k = one} (omega arith)).0 takes in
    ground (arith, e, r, c, h, long', takes', exact)
