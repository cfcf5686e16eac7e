-- ===== src/RateLimit/Bucket.antt =====
-- internal/lua/ratelimit.lua and internal/lua/ratelimit_leaky.lua. Their doubles are taken as exact
-- numbers, in a unit of the budget of which the capacity, the requested amount and the rate for a
-- millisecond are whole multiples.
pub mod Meter
pub mod Scripts
pub mod Refine
pub mod Bounds
mod Examples
use distsync.Common.{
  ℕ, ◌+◌, ◌-◌, ◌*◌, ◌/◌, Bool, true, false, not, Option, none, some, Text, [], ◌∷◌, if◌then◌else◌,
}
use distsync.Common.Int.{ℤ, pos, pos_part, sub_ℕ, ◌+ℤ◌, ◌-ℤ◌, times, ltb_ℤ}
use distsync.Redis.Hashes.{Hashes}

-- The rate is what comes back, or drains, in a millisecond.
pub record Bucket : Type 0 where
  pub key : Text
  pub capacity : ℕ
  pub rate : ℕ

-- `if x == nil then x = default end`
abbrev pub or_default {ℓ} : {A : Type ℓ} → Option A → A → A
or_default none a = a
or_default (some b) a = b

-- math.ceil(a / b)
abbrev pub ceil_div : ℕ → ℕ → ℕ
ceil_div a b = (a + b - 1) / b

-- PEXPIRE's argument in both scripts
abbrev pub idle : Bucket → ℕ
idle bucket = ceil_div bucket.capacity bucket.rate + 1000

-- Whether a script has granted, what is left in the bucket (of which the server sends the whole part),
-- and the milliseconds after which to ask again.
abbrev pub Reply : Type 0
Reply = Bool × ℤ × ℕ

-- What `allow` of ratelimiter.go reads of a reply: its first number and its third.
abbrev pub Verdict : Type 0
Verdict = Bool × ℕ

abbrev pub tokens : Text
tokens = b't' ∷ b'o' ∷ b'k' ∷ b'e' ∷ b'n' ∷ b's' ∷ []

abbrev pub level : Text
level = b'l' ∷ b'e' ∷ b'v' ∷ b'e' ∷ b'l' ∷ []

module _ {H : Type 0} (redis : Hashes H) (bucket : Bucket) where
  open redis use {amount, stamp, hset, pexpire}

  -- ratelimit.lua, run by the server at `t` for a client whose clock shows `now`
  unfoldable pub token_script : H → (t now requested : ℕ) → H × Reply
  token_script h t now requested =
      let held = or_default (amount h t bucket.key tokens) (pos bucket.capacity) in
      let ts = or_default (stamp h t bucket.key) now in
      let sum = held +ℤ times (sub_ℕ now ts) bucket.rate in
      let refilled = if ltb_ℤ (pos bucket.capacity) sum then pos bucket.capacity else sum in
      let allowed = not (ltb_ℤ refilled (pos requested)) in
      let remaining = if allowed then refilled -ℤ pos requested else refilled in
      let retry =
        if allowed then 0 else ceil_div (pos_part (pos requested -ℤ refilled)) bucket.rate in
      let h' = hset h t bucket.key tokens remaining now in
      (pexpire h' t bucket.key (idle bucket), (allowed, remaining, retry))

  -- ratelimit_leaky.lua
  unfoldable pub leaky_script : H → (t now requested : ℕ) → H × Reply
  leaky_script h t now requested =
      let held = or_default (amount h t bucket.key level) (pos 0) in
      let ts = or_default (stamp h t bucket.key) now in
      let rest = held -ℤ times (sub_ℕ now ts) bucket.rate in
      let drained = if ltb_ℤ rest (pos 0) then pos 0 else rest in
      let new_level = drained +ℤ pos requested in
      let allowed = not (ltb_ℤ (pos bucket.capacity) new_level) in
      let retry =
        if allowed then 0 else ceil_div (pos_part (new_level -ℤ pos bucket.capacity)) bucket.rate in
      let h' = hset h t bucket.key level (if allowed then new_level else drained) now in
      (pexpire h' t bucket.key (idle bucket), (allowed, pos 0, retry))

  -- The scripts with what is read of their replies
  unfoldable pub token_verdict : H → (t now requested : ℕ) → H × Verdict
  token_verdict h t now requested = let r = token_script h t now requested in (r.0, (r.1.0, r.1.2))

  unfoldable pub leaky_verdict : H → (t now requested : ℕ) → H × Verdict
  leaky_verdict h t now requested = let r = leaky_script h t now requested in (r.0, (r.1.0, r.1.2))
