-- ===== src/RateLimit/Refused.antt =====
-- What a refusal costs, and how Acquire waits.
use distsync.Common.{
  ℕ, ◌+◌, ◌*◌, ◌<◌, ◌≤◌, ◌≡◌, refl, ◌∙◌, true, false, not, Option, some, List, [], ◌∷◌, ◌++◌, ◌||◌,
  ◌⊎◌, Text, Text_discrete, arith, All, Bool-cases, inl, inr, subst,
}
use native.Mathlib.Nat.{le_refl}
use distsync.Redis.Counting.{Counters, CounterLaws}
use distsync.Lease.Core.{Error, Trip, delivered, milliseconds}
use distsync.Handle.{is_nil}
use distsync.RateLimit.{
  RateLimiter, Amount, unfit, amount, ceil, Answer, Turn, fixed_window_key, ratelimit_fixed, ask,
  allow, pause, settle, acquire,
}

module _ {C : Type 0} (redis : Counters C) (laws : CounterLaws redis) where
  open redis use {value, incrby, decrby, pexpire}

  -- A script that refuses has put back what it took.
  fixed-refused :
      (c : C) (t : ℕ) (k : Text) (limit window now n : ℕ) (k' : Text)
      → 0 < window
      → (ratelimit_fixed redis c t k limit window now n).1.allowed ≡ false
      → value (ratelimit_fixed redis c t k limit window now n).0 t k' ≡ value c t k'
  unfolding ratelimit_fixed
  fixed-refused c t k limit window now n k' pos e =
      let c' = (incrby c t k n).0 in
      let d = pexpire c' t k (window * 2) in
      let taken : value d t k ≡ value c t k + n =
        laws.value-pexpire c' t t k (window * 2) (le_refl _) (omega (arith, pos))
        ∙ laws.value-incrby c t k n in
      let enough : n ≤ value d t k = omega (arith, taken) in
      let back = laws.value-decrby d t t k n (le_refl _) enough enough in
      elim (Text_discrete k k') [
        | yes q ↦
            subst (λ u. value (ratelimit_fixed redis c t k limit window now n).0 t u ≡ value c t u)
              q (ground (arith, e, back, taken))
        | no ne ↦
            let same =
              laws.value-decrby_other d t t k n k' ne (le_refl _)
              ∙ laws.value-pexpire_other c' t t k (window * 2) k' ne (le_refl _)
              ∙ laws.value-incrby_other c t t k n k' ne (le_refl _) in
            ground (arith, e, same)
      ]

  -- An answered request that is not granted costs nothing: when the server has answered, no counter
  -- has another value than before, whichever check refused it.
  pub refused_free :
      (rl : RateLimiter) (n : Amount) (trip : Trip) (c : C) (k : Text)
      → 0 < rl.window
      → trip.fate ≡ delivered
      → (allow redis rl n trip c).1.allowed ≡ false
      → value (allow redis rl n trip c).0 trip.served k ≡ value c trip.served k
  unfolding allow ask
  refused_free rl unfit trip c k pos f e = refl
  refused_free rl (amount whole more) trip c k pos f e =
      let now = milliseconds trip.sent in
      let script =
        λ (h : (ratelimit_fixed redis c trip.served (fixed_window_key rl now) rl.capacity rl.window
              now (ceil whole more)).1.allowed
            ≡ false).
          fixed-refused c trip.served (fixed_window_key rl now) rl.capacity rl.window now
            (ceil whole more) k pos h in
      ground (arith, f, e, script)

pause_positive : (r : ℕ) → 0 < pause r
unfolding pause
pause_positive r = ground arith

-- The loop returns, and has never asked again without a pause.
unfoldable pub IsPaced : {C : Type 0} → Option (C × List ℕ × Error) → Type 0
IsPaced {C} o = (out : C × List ℕ × Error) × (o ≡ some out) × All (λ p. 0 < p) out.1

module _ {C : Type 0} (a : Answer) (r : Turn C) (c : C) (rest : Option (C × List ℕ × Error)) where
  pub settle-IsPaced : ((r.over || not r.woken) ≡ true) ⊎ IsPaced rest → IsPaced (settle a r c rest)
  unfolding IsPaced
  settle-IsPaced h = elim (Bool-cases (is_nil a.error)) [
    | inr e ↦ rw e (_, refl, tt)
    | inl e ↦ elim (Bool-cases a.allowed) [
      | inl y ↦ rw (e, y) (_, refl, tt)
      | inr y ↦ elim (Bool-cases r.over) [
        | inl o ↦ rw (e, y, o) (_, refl, tt)
        | inr o ↦ elim (Bool-cases r.woken) [
          | inr k ↦ rw (e, y, o, k) (_, refl, tt)
          | inl k ↦ elim h [
            | inl over ↦ absurd (ground (arith, over, o, k))
            | inr (out, q, paces) ↦
                rw (e, y, o, k, q)
                  (
                    (out.0, pause a.retry_after ∷ out.1, out.2),
                    refl,
                    (pause_positive a.retry_after, paces),
                  )
          ]
        ]
      ]
    ]
  ]

module _ {C : Type 0} (redis : Counters C) (rl : RateLimiter) (n : Amount) where
  -- Acquire returns by the first turn in which its context is over, and never asks again without a
  -- pause.
  pub acquire-IsPaced :
      (waits : List (Turn C)) (r : Turn C) (rest : List (Turn C)) (c : C)
      → (r.over || not r.woken) ≡ true
      → IsPaced (acquire redis rl n (waits ++ r ∷ rest) c)
  unfolding acquire
  acquire-IsPaced [] r rest c e =
      let (c', a) = allow redis rl n r.trip (r.others c) in
      settle-IsPaced a r c' (acquire redis rl n rest c') (inl e)
  acquire-IsPaced (w ∷ waits) r rest c e =
      let (c', a) = allow redis rl n w.trip (w.others c) in
      settle-IsPaced a w c' (acquire redis rl n (waits ++ r ∷ rest) c')
        (inr (acquire-IsPaced waits r rest c' e))
