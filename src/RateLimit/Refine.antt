-- ===== src/RateLimit/Refine.antt =====
-- The fixed window against a ledger of what was granted in each window.
use distsync.Common.{
  ℕ, ◌+◌, ◌-◌, ◌*◌, ◌/◌, ◌<◌, ◌≤◌, ◌≡◌, ◌≢◌, refl, sym, ap, ◌∙◌, Bool, true, false, List, [], ◌∷◌,
  ◌++◌, Text, arith, if◌then◌else◌, ltb, ◌==◌, update, ℕ_discrete, All, dec_lt, if_pos, if_neg,
  Bool-cases, inl, inr, subst,
}
use native.Mathlib.Nat.{le_refl, le-div_iff_mul-le}
use distsync.Common.Decimal.{decimal, decimal-injective}
use mathlib.Core.List.{append_cancel_left}
use distsync.Redis.{millisecond}
use distsync.Redis.Counting.{Counters, CounterLaws}
use distsync.Lease.Core.{milliseconds}
use distsync.RateLimit.{RateLimiter, fixed_window_key, ratelimit_fixed}

-- A request that is served some time after the one before; its client made it some time before that.
pub record Call : Type 0 where
  pub delay : ℕ
  pub age : ℕ
  pub n : ℕ

-- One line for each request: its window, its count, and whether it was granted.
abbrev pub Log : Type 0
Log = List (ℕ × ℕ × Bool)

-- The window of a request.
abbrev pub window_of : RateLimiter → ℕ → ℕ
window_of rl now = now / rl.window

-- What was granted in a window.
unfoldable pub total : ℕ → Log → ℕ
total w [] = 0
total w ((v, n, granted) ∷ log) =
    let rest = total w log in if (v == w) then (if granted then n + rest else rest) else rest

module _ {C : Type 0} (redis : Counters C) (rl : RateLimiter) where
  -- The requests at the server, and what it replies.
  unfoldable pub run : ℕ → C → List Call → Log
  run t c [] = []
  run t c (a ∷ as') =
      let t' = t + a.delay in
      let now = milliseconds (t' - a.age) in
      let (c', v) =
        ratelimit_fixed redis c t' (fixed_window_key rl now) rl.capacity rl.window now a.n in
      (window_of rl now, a.n, v.allowed) ∷ run t' c' as'

-- The ledger: in each window, requests are granted as long as they fit the capacity together.
unfoldable pub ledger_run : RateLimiter → ℕ → (ℕ → ℕ) → List Call → Log
ledger_run rl t f [] = []
ledger_run rl t f (a ∷ as') =
    let t' = t + a.delay in
    let w = window_of rl (milliseconds (t' - a.age)) in
    let refused = ledger_run rl t' f as' in
    let granted = ledger_run rl t' (update f w (f w + a.n)) as' in
    if ltb rl.capacity (f w + a.n) then (w, a.n, false) ∷ refused else (w, a.n, true) ∷ granted

-- The key of a window
abbrev pub key_of : RateLimiter → ℕ → Text
key_of rl w = rl.key ++ b':' ∷ decimal w

key_of-apart : (rl : RateLimiter) (w w' : ℕ) → w ≢ w' → key_of rl w ≢ key_of rl w'
key_of-apart rl w w' ne e =
    let e' = append_cancel_left rl.key (b':' ∷ decimal w) (b':' ∷ decimal w') e in
    ne (decimal-injective w w' (ground (arith, e')))

div_below : (m n : ℕ) → 0 < n → m / n * n ≤ m
div_below m n pos = (le-div_iff_mul-le pos).0 (le_refl _)

div_above : (m n : ℕ) → 0 < n → m < (m / n + 1) * n
div_above m n pos = elim (dec_lt m ((m / n + 1) * n)) [
  | yes lt ↦ lt
  | no ge ↦
      let more : m / n + 1 ≤ m / n = (le-div_iff_mul-le pos).1 (omega (arith, ge)) in
      absurd (omega (arith, more))
]

-- A request of a window is served before the end of the next one, and after its start.
window_start :
    (window t age : ℕ) → 0 < window → milliseconds (t - age) / window * (window * millisecond) ≤ t
unfolding milliseconds
window_start window t age pos =
    let q = milliseconds (t - age) / window in
    grind (arith, div_below (milliseconds (t - age)) window pos)

window_end :
    (window t age : ℕ)
    → 0 < window
    → age ≤ window * millisecond
    → t < (milliseconds (t - age) / window + 2) * (window * millisecond)
unfolding milliseconds
window_end window t age pos le = grind (arith, le, div_above (milliseconds (t - age)) window pos)

window_lasts :
    (w window t t' : ℕ)
    → w * (window * millisecond) ≤ t
    → t' < (w + 2) * (window * millisecond)
    → t' < t + window * 2 * millisecond
window_lasts w window t t' h h' = grind (arith, h, h')

module _ {C : Type 0} (redis : Counters C) (laws : CounterLaws redis) (rl : RateLimiter) where
  open redis use {value, incrby, decrby, pexpire}

  -- Until the end of the next window, the counter of a window is its line in the ledger.
  unfoldable pub IsKept : (ℕ → ℕ) → ℕ → C → Type 0
  IsKept f t c =
      (w t' : ℕ)
      → t ≤ t'
      → t' < (w + 2) * (rl.window * millisecond)
      → value c t' (key_of rl w) ≡ f w

  module _ (f : ℕ → ℕ) (t : ℕ) (c : C) (w now n : ℕ) (start : w * (rl.window * millisecond) ≤ t)
      (end : t < (w + 2) * (rl.window * millisecond)) (kept : IsKept f t c) where
    abbrev added : C
    added = pexpire (incrby c t (key_of rl w) n).0 t (key_of rl w) (rl.window * 2)

    count : (incrby c t (key_of rl w) n).1 ≡ f w + n
    unfolding IsKept
    count = laws.incrby-count c t (key_of rl w) n ∙ ap (λ x. x + n) (kept w t (le_refl _) end)

    added-here :
        (t' : ℕ)
        → t ≤ t'
        → t' < (w + 2) * (rl.window * millisecond)
        → value added t' (key_of rl w) ≡ f w + n
    unfolding IsKept
    added-here t' le lt =
        laws.value-pexpire (incrby c t (key_of rl w) n).0 t t' (key_of rl w) (rl.window * 2) le
          (window_lasts w rl.window t t' start lt)
        ∙ laws.value-incrby c t (key_of rl w) n
        ∙ ap (λ x. x + n) (kept w t (le_refl _) end)

    added-elsewhere :
        (v t' : ℕ) → w ≢ v → t ≤ t' → value added t' (key_of rl v) ≡ value c t' (key_of rl v)
    added-elsewhere v t' ne le =
        let apart = key_of-apart rl w v ne in
        laws.value-pexpire_other (incrby c t (key_of rl w) n).0 t t' (key_of rl w) (rl.window * 2)
          (key_of rl v) apart le
        ∙ laws.value-incrby_other c t t' (key_of rl w) n (key_of rl v) apart le

    granted-IsKept : IsKept (update f w (f w + n)) t added
    unfolding IsKept
    granted-IsKept v t' le lt = elim (ℕ_discrete w v) [
      | yes e ↦
          let here =
            added-here t' le (subst (λ u. t' < (u + 2) * (rl.window * millisecond)) (sym e) lt) in
          subst (λ u. value added t' (key_of rl u) ≡ update f w (f w + n) u) e
            (here ∙ sym (if_pos (ℕ_discrete w w) refl _ _))
      | no ne ↦ rw (if_neg (ℕ_discrete w v) ne) (added-elsewhere v t' ne le ∙ kept v t' le lt)
    ]

    rolled_back :
        (t' : ℕ)
        → t ≤ t'
        → t' < (w + 2) * (rl.window * millisecond)
        → value (decrby added t (key_of rl w) n).0 t' (key_of rl w) ≡ f w
    rolled_back t' le lt =
        let now' = added-here t (le_refl _) end in
        let later = added-here t' le lt in
        omega (
          arith,
          now',
          later,
          laws.value-decrby added t t' (key_of rl w) n le (omega (arith, later))
              (omega (arith, now')),
        )

    refused-IsKept : IsKept f t (decrby added t (key_of rl w) n).0
    unfolding IsKept
    refused-IsKept v t' le lt = elim (ℕ_discrete w v) [
      | yes e ↦
          let lt' = subst (λ u. t' < (u + 2) * (rl.window * millisecond)) (sym e) lt in
          subst (λ u. value (decrby added t (key_of rl w) n).0 t' (key_of rl u) ≡ f u) e
            (rolled_back t' le lt')
      | no ne ↦
          laws.value-decrby_other added t t' (key_of rl w) n (key_of rl v) (key_of-apart rl w v ne)
            le
          ∙ added-elsewhere v t' ne le
          ∙ kept v t' le lt
    ]

  later-IsKept : (f : ℕ → ℕ) (t d : ℕ) (c : C) → IsKept f t c → IsKept f (t + d) c
  unfolding IsKept
  later-IsKept f t d c kept w t' le lt = kept w t' (omega (arith, le)) lt

  module _ (pos : 0 < rl.window) where
    -- The script answers each request as the ledger does: over any requests at any times, if the
    -- counters are as the ledger has them and each request is served within a window's length.
    pub run-ledger_run :
        (t : ℕ) (c : C) (f : ℕ → ℕ) (calls : List Call)
        → IsKept f t c
        → All (λ a. a.age ≤ rl.window * millisecond) calls
        → run redis rl t c calls ≡ ledger_run rl t f calls
    unfolding run ledger_run ratelimit_fixed fixed_window_key
    run-ledger_run t c f [] kept ages = refl
    run-ledger_run t c f (a ∷ as') kept (age, ages) =
        let t' = t + a.delay in
        let now = milliseconds (t' - a.age) in
        let w = window_of rl now in
        let here = later-IsKept f t a.delay c kept in
        let start = window_start rl.window t' a.age pos in
        let end = window_end rl.window t' a.age pos age in
        let yes' = granted-IsKept f t' c w now a.n start end here in
        let no' = refused-IsKept f t' c w now a.n start end here in
        let granted =
          run-ledger_run t' (added f t' c w now a.n start end here) (update f w (f w + a.n)) as'
            yes' ages in
        let refused =
          run-ledger_run t' (decrby (added f t' c w now a.n start end here) t' (key_of rl w) a.n).0
            f as' no' ages in
        let counted = count f t' c w now a.n start end here in
        elim (Bool-cases (ltb rl.capacity (f w + a.n))) [
          | inl e ↦ rw (counted, e) (ap (λ l. (w, a.n, false) ∷ l) refused)
          | inr e ↦ rw (counted, e) (ap (λ l. (w, a.n, true) ∷ l) granted)
        ]

  ledger_run_bound :
      (w t : ℕ) (f : ℕ → ℕ) (calls : List Call)
      → ((v : ℕ) → f v ≤ rl.capacity)
      → f w + total w (ledger_run rl t f calls) ≤ rl.capacity
  unfolding ledger_run total
  ledger_run_bound w t f [] h = omega (arith, h w)
  ledger_run_bound w t f (a ∷ as') h =
      let t' = t + a.delay in
      let v = window_of rl (milliseconds (t' - a.age)) in
      let f' = update f v (f v + a.n) in
      elim (Bool-cases (ltb rl.capacity (f v + a.n))) [
        | inl e ↦ rw e (ground (arith, ledger_run_bound w t' f as' h))
        | inr e ↦
            let h' : (u : ℕ) → f' u ≤ rl.capacity = λ u. ground (arith, h u, e) in
            rw e (ground (arith, ledger_run_bound w t' f' as' h'))
      ]

  -- In no window are more requests granted together than the capacity, whatever is asked and when, if
  -- each request is served within a window's length and the counters start at 0.
  pub run_bound :
      (w t : ℕ) (c : C) (calls : List Call)
      → 0 < rl.window
      → ((v t' : ℕ) → t ≤ t' → value c t' (key_of rl v) ≡ 0)
      → All (λ a. a.age ≤ rl.window * millisecond) calls
      → total w (run redis rl t c calls) ≤ rl.capacity
  unfolding IsKept
  run_bound w t c calls pos empty ages =
      rw (run-ledger_run pos t c (λ _. 0) calls (λ v t' le _. empty v t' le) ages)
        (omega (arith, ledger_run_bound w t (λ _. 0) calls (λ v. omega arith)))
