-- ===== src/Lease/PermitSet/Deadline.antt =====
-- The local deadline of a grant against the score that the scripts store for it: every client purges
-- by its own clock, so while a holder is valid its score must lie above the time in milliseconds.
use distsync.Common.{ℕ, ◌+◌, ◌-◌, ◌*◌, ◌/◌, ◌%◌, ◌<◌, ◌≤◌, ◌≡◌, ◌⊎◌, inl, inr, arith}
use distsync.Redis.{millisecond}
use distsync.Lease.Core.{request_expiry, milliseconds}

-- A timeout of whole milliseconds, or of a tenth of a second at least: at every time before the
-- local deadline the stored score is above the clock, so no purge by that clock takes the permit.
pub valid_below_score :
    (sent ttl now : ℕ)
    → (ttl % millisecond ≡ 0) ⊎ (100 * millisecond ≤ ttl)
    → millisecond ≤ sent
    → now < request_expiry sent ttl
    → milliseconds now < milliseconds sent + milliseconds ttl
unfolding request_expiry milliseconds
valid_below_score sent ttl now (inl whole) h lt = omega arith
valid_below_score sent ttl now (inr long) h lt = omega arith

-- A shorter timeout with a fraction of a millisecond: when the fractions of the clock and of the
-- timeout together exceed a millisecond and the 1% margin, a purge takes the permit of a holder
-- whose local deadline has not passed.
pub short_ttl_overruns :
    (sent ttl : ℕ)
    → millisecond + ttl / 100 < sent % millisecond + ttl % millisecond
    → (now : ℕ) × (now < request_expiry sent ttl)
      × (milliseconds sent + milliseconds ttl ≤ milliseconds now)
unfolding request_expiry milliseconds
short_ttl_overruns sent ttl h =
    (sent + (ttl - ttl / 100) - millisecond - 1, omega arith, omega arith)
