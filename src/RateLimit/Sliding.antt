-- ===== src/RateLimit/Sliding.antt =====
-- internal/lua/ratelimit_sliding.lua, whose requests are counted whole; of the capacity only its
-- whole part matters then.
pub mod Log
mod Members
mod Counts
pub mod Refine
pub mod Retry
mod Examples
use distsync.Common.{
  ℕ, zero, suc, ◌+◌, ◌-◌, ◌*◌, Bool, true, false, Option, none, some, ◌∷◌, ◌++◌, Text,
  if◌then◌else◌, ltb,
}
use distsync.Common.Int.{ℤ, pos, sub_ℕ, ◌-ℤ◌}
use distsync.Common.Decimal.{decimal}
use distsync.Redis.Windows.{Windows}

pub record Window : Type 0 where
  pub key : Text
  pub limit : ℕ
  pub length : ℕ

-- prefix .. ':' .. i
abbrev pub member : Text → ℕ → Text
member prefix i = prefix ++ b':' ∷ decimal i

-- The milliseconds after which to ask again, by the oldest entry
abbrev pub wait_for : ℕ → ℕ → Option ℕ → ℤ
wait_for length now none = pos length
wait_for length now (some oldest) = pos length -ℤ sub_ℕ now oldest

module _ {W : Type 0} (redis : Windows W) (window : Window) where
  open redis use {zcard, zfirst, zadd, zremrangebyscore, pexpire}

  -- The loop that adds an entry for each request, from `i` on
  unfoldable pub add_entries : W → (t now : ℕ) → Text → (i requested : ℕ) → W
  add_entries w t now prefix i zero = w
  add_entries w t now prefix i (suc n) =
      add_entries (zadd w t window.key now (member prefix i)) t now prefix (i + 1) n

  -- ratelimit_sliding.lua, run by the server at `t`
  unfoldable pub sliding_script : W → (t now requested : ℕ) → Text → W × (Bool × ℕ × ℤ)
  unfolding add_entries
  sliding_script w t now requested prefix =
      let w' = zremrangebyscore w t window.key (sub_ℕ now window.length) in
      let used = zcard w' t window.key in
      if ltb window.limit (used + requested)
      then (
        pexpire w' t window.key (window.length * 2),
        (false, 0, wait_for window.length now (zfirst w' t window.key)),
      )
      else (
        pexpire (add_entries w' t now prefix 0 requested) t window.key (window.length * 2),
        (true, window.limit - used - requested, pos 0),
      )
