-- ===== src/RateLimit/Bucket/Refine.antt =====
-- Both scripts grant what the meter grants, whenever their keys lapse.
use distsync.Common.{
  ℕ, ◌+◌, ◌-◌, ◌*◌, ◌/◌, ◌≤◌, ◌<◌, ◌≡◌, ◌∙◌, ap, sym, refl, none, some, List, [], ◌∷◌, Text, ◌⊎◌,
  inl, inr, arith,
}
use native.Mathlib.Nat.{le_refl, mul-le-mul_right}
use distsync.Common.Int.{ℤ, pos, sub_ℕ, pos_sub}
use distsync.Redis.{millisecond}
use distsync.Redis.Hashes.{Hashes, HashLaws}
use distsync.Lease.Core.{milliseconds}
use distsync.RateLimit.Bucket.{
  Bucket, Verdict, or_default, ceil_div, idle, tokens, level, token_verdict, leaky_verdict,
}
use distsync.RateLimit.Bucket.Meter.{Meter, meter_step, ceil_div_lem}
use distsync.RateLimit.Bucket.Scripts.{store, token_verdict-meter, leaky_verdict-meter}

-- A request that is served some time after the one before, and what its client's clock showed.
pub record Ask : Type 0 where
  pub delay : ℕ
  pub now : ℕ
  pub requested : ℕ

-- The clocks of the clients are at most half a second from the server's.
unfoldable pub Near : ℕ → List Ask → Type 0
Near t [] = Unit
Near t (a ∷ as') =
    let rest = Near (t + a.delay) as' in
    (milliseconds (t + a.delay) ≤ a.now + 500) × (a.now ≤ milliseconds (t + a.delay) + 500) × rest

-- The requests at the server, with a script, and what is read of its replies
unfoldable pub run : {H : Type 0} → (H → ℕ → ℕ → ℕ → H × Verdict) → ℕ → H → List Ask → List Verdict
run script t h [] = []
run script t h (a ∷ as') =
    let (h', reply) = script h (t + a.delay) a.now a.requested in
    reply ∷ run script (t + a.delay) h' as'

unfoldable pub meter_run : Bucket → Meter → List Ask → List Verdict
meter_run bucket m [] = []
meter_run bucket m (a ∷ as') =
    let (m', reply) = meter_step bucket m a.now a.requested in reply ∷ meter_run bucket m' as'

abbrev pub empty : Meter
empty = record { level = 0; since = 0 }

-- The level with what would have drained until its time: at the end of what a clock may show.
abbrev Bounded : Bucket → ℕ → Meter → Type 0
Bounded bucket t m =
    m.level + m.since * bucket.rate ≤ bucket.capacity + (milliseconds t + 500) * bucket.rate

meter_step-Bounded :
    (bucket : Bucket) (t t' : ℕ) (m : Meter) (now q : ℕ)
    → t ≤ t'
    → now ≤ milliseconds t' + 500
    → Bounded bucket t m
    → Bounded bucket t' (meter_step bucket m now q).0
unfolding meter_step milliseconds
meter_step-Bounded bucket t t' m now q le near b =
    let later : (t / millisecond + 500) * bucket.rate ≤ (t' / millisecond + 500) * bucket.rate =
      mul-le-mul_right bucket.rate (omega (arith, le)) in
    let shown : now * bucket.rate ≤ (t' / millisecond + 500) * bucket.rate =
      mul-le-mul_right bucket.rate near in
    ground (arith, later, shown, b)

-- A key lapses only when its bucket would have drained, on any clock.
drained :
    (bucket : Bucket) (t t' : ℕ) (m : Meter)
    → 0 < bucket.rate
    → Bounded bucket t m
    → t + idle bucket * millisecond ≤ t'
    → m.level + m.since * bucket.rate ≤ (milliseconds t' - 500) * bucket.rate
unfolding milliseconds
drained bucket t t' m some_rate b late =
    let (x, r) : ℕ × ℕ = (ceil_div bucket.capacity bucket.rate, bucket.rate) in
    let later : (t / millisecond + 500 + x) * r ≤ (t' / millisecond - 500) * r =
      mul-le-mul_right r (omega (arith, late)) in
    let full : bucket.capacity ≤ x * r = ceil_div_lem bucket.capacity r some_rate in
    let sum : (t / millisecond + 500 + x) * r ≡ (t / millisecond + 500) * r + x * r = grind arith in
    omega (arith, later, full, sum, b)

module _ {H : Type 0} (redis : Hashes H) (laws : HashLaws redis) (bucket : Bucket) (field : Text)
    (value : ℕ → ℤ) where
  open redis use {amount, stamp, hset, pexpire, del}

  -- The hash has the level and its time, or has lapsed and would be drained.
  Shows : H → ℕ → Meter → Type 0
  Shows h t m =
      ((amount h t bucket.key field ≡ some (value m.level)) × (stamp h t bucket.key ≡ some m.since))
      ⊎ ((amount h t bucket.key field ≡ none)
          × (stamp h t bucket.key ≡ none)
          × (m.level + m.since * bucket.rate ≤ (milliseconds t - 500) * bucket.rate))

  store-Shows :
      (h : H) (t t' : ℕ) (m : Meter)
      → 0 < bucket.rate
      → t ≤ t'
      → Bounded bucket t m
      → Shows (store redis bucket h t field (value m.level) m.since) t' m
  unfolding Shows store
  store-Shows h t t' m some_rate le b =
      let (key, at) : Text × ℕ = (bucket.key, m.since) in
      let h' = hset h t key field (value m.level) at in
      elim (laws.after_pexpire h' t t' key field (idle bucket) le) [
        | inl (e, e') ↦ inl (
          e ∙ laws.amount-hset h t key field (value m.level) at,
          e' ∙ laws.stamp-hset h t key field (value m.level) at,
        )
        | inr (late, e, e') ↦ inr (e, e', drained bucket t t' m some_rate b late)
      ]

  module _ (script : H → ℕ → ℕ → ℕ → H × Verdict)
      (script-meter : (h : H) (t now q : ℕ) (m : Meter)
        → or_default (amount h t bucket.key field) (value 0) ≡ value m.level
        → or_default (stamp h t bucket.key) now ≡ m.since
        → script h t now q ≡ (
          store redis bucket h t field (value (meter_step bucket m now q).0.level) now,
          (meter_step bucket m now q).1,
        )) where
    script-step :
        (h : H) (t now q : ℕ) (m : Meter)
        → milliseconds t ≤ now + 500
        → Shows h t m
        → script h t now q ≡ (
          store redis bucket h t field (value (meter_step bucket m now q).0.level) now,
          (meter_step bucket m now q).1,
        )
    unfolding Shows meter_step
    script-step h t now q m near (inl (e, e')) = script-meter h t now q m (rw e refl) (rw e' refl)
    script-step h t now q m near (inr (e, e', dry)) =
        let at : Meter = record { level = 0; since = now } in
        let early : (milliseconds t - 500) * bucket.rate ≤ now * bucket.rate =
          mul-le-mul_right bucket.rate (omega (arith, near)) in
        let same : m.level + m.since * bucket.rate - now * bucket.rate
            ≡ at.level + at.since * bucket.rate - now * bucket.rate =
          omega (arith, early, dry) in
        rw same (script-meter h t now q at (rw e refl) (rw e' refl))

    run_shown :
        (t : ℕ) (h : H) (m : Meter) (asks : List Ask)
        → 0 < bucket.rate
        → ((t' : ℕ) → t ≤ t' → Shows h t' m)
        → Bounded bucket t m
        → Near t asks
        → run script t h asks ≡ meter_run bucket m asks
    unfolding run meter_run Near meter_step
    run_shown t h m [] some_rate shows b near = refl
    run_shown t h m (a ∷ as') some_rate shows b (n, n', near) =
        let t' = t + a.delay in
        let m' = (meter_step bucket m a.now a.requested).0 in
        let step = script-step h t' a.now a.requested m n (shows t' (omega arith)) in
        let b' = meter_step-Bounded bucket t t' m a.now a.requested (omega arith) n' b in
        rw step (
          ap (λ rest. (meter_step bucket m a.now a.requested).1 ∷ rest)
            (run_shown t' _ m' as' some_rate (λ t'' le. store-Shows h t' t'' m' some_rate le b') b'
              near))

    run_lem :
        (t t0 : ℕ) (h : H) (asks : List Ask)
        → 0 < bucket.rate
        → t0 ≤ t
        → Near t asks
        → run script t (del h t0 bucket.key) asks ≡ meter_run bucket empty asks
    unfolding Shows
    run_lem t t0 h asks some_rate le near =
        run_shown t (del h t0 bucket.key) empty asks some_rate
          (λ t' le'. inr (
            laws.amount-del h t0 t' bucket.key field (omega (arith, le, le')),
            laws.stamp-del h t0 t' bucket.key (omega (arith, le, le')),
            omega arith,
          ))
          (omega arith) near

module _ {H : Type 0} (redis : Hashes H) (laws : HashLaws redis) (bucket : Bucket) where
  open redis use {del}

  -- From a deleted key on, the token bucket grants what the meter grants and names the waiting times
  -- that it names, if something comes back in a millisecond and the clients' clocks are within half a
  -- second of the server's.
  pub token_run-meter :
      (t : ℕ) (h : H) (asks : List Ask)
      → 0 < bucket.rate
      → Near t asks
      → run (token_verdict redis bucket) t (del h t bucket.key) asks ≡ meter_run bucket empty asks
  token_run-meter t h asks some_rate near =
      run_lem redis laws bucket tokens (λ l. sub_ℕ bucket.capacity l) (token_verdict redis bucket)
        (λ h' t' now q m e.
          token_verdict-meter redis bucket h' t' now q m
            (ap (or_default (redis.amount h' t' bucket.key tokens)) (pos_sub bucket.capacity) ∙ e))
        t t h asks some_rate (le_refl t) near

  pub leaky_run-meter :
      (t : ℕ) (h : H) (asks : List Ask)
      → 0 < bucket.rate
      → Near t asks
      → run (leaky_verdict redis bucket) t (del h t bucket.key) asks ≡ meter_run bucket empty asks
  leaky_run-meter t h asks some_rate near =
      run_lem redis laws bucket level pos (leaky_verdict redis bucket)
        (leaky_verdict-meter redis bucket) t t h asks some_rate (le_refl t) near

  -- From a deleted key on, the leaky bucket grants of any requests what the token bucket grants of
  -- them, and names the same waiting times for the rest, if something comes back in a millisecond and
  -- the clients' clocks are within half a second of the server's. The second numbers of the replies,
  -- which `allow` does not read, are not compared and may differ.
  pub leaky_run-token :
      (t : ℕ) (h : H) (asks : List Ask)
      → 0 < bucket.rate
      → Near t asks
      → run (leaky_verdict redis bucket) t (del h t bucket.key) asks
        ≡ run (token_verdict redis bucket) t (del h t bucket.key) asks
  leaky_run-token t h asks some_rate near =
      leaky_run-meter t h asks some_rate near ∙ sym (token_run-meter t h asks some_rate near)
