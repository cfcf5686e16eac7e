-- ===== src/Redis/Windows.antt =====
-- Sorted sets that carry a timeout, as the sliding window uses them. They are seen through ZCOUNT,
-- the number of members above a score, and ZSCORE.
use distsync.Common.{
  ℕ, ◌+◌, ◌*◌, ◌≤◌, ◌<◌, ◌≡◌, ◌≢◌, ◌⊎◌, true, false, Option, none, some, Text, if◌then◌else◌,
}
use distsync.Common.Int.{ℤ, pos, ltb_ℤ}
use distsync.Redis.Commands.{millisecond}

pub record Windows (W : Type 0) : Type 0 where
  pub zcount : W → ℕ → Text → ℤ → ℕ  -- ZCOUNT key (min +inf
  pub zscore : W → ℕ → Text → Text → Option ℕ  -- ZSCORE key member
  pub zcard : W → ℕ → Text → ℕ  -- ZCARD key
  pub zfirst : W → ℕ → Text → Option ℕ  -- the score of ZRANGE key 0 0 WITHSCORES
  pub zadd : W → ℕ → Text → ℕ → Text → W  -- ZADD key score member
  pub zremrangebyscore : W → ℕ → Text → ℤ → W  -- ZREMRANGEBYSCORE key -inf max
  pub pexpire : W → ℕ → Text → ℕ → W  -- PEXPIRE key ms
  pub del : W → ℕ → Text → W  -- DEL key

module _ {W : Type 0} (redis : Windows W) where
  open redis use {zcount, zscore, zcard, zfirst, zadd, zremrangebyscore, pexpire, del}

  pub record WindowLaws : Type 0 where
    -- The commands at one time
    pub zcount-zremrangebyscore :
        (w : W) (t : ℕ) (k : Text) (max min : ℤ)
        → ltb_ℤ min max ≡ false
        → zcount (zremrangebyscore w t k max) t k min ≡ zcount w t k min
    pub zcard-zremrangebyscore :
        (w : W) (t : ℕ) (k : Text) (max : ℤ)
        → zcard (zremrangebyscore w t k max) t k ≡ zcount w t k max
    pub zscore-zremrangebyscore :
        (w : W) (t : ℕ) (k m : Text) (max : ℤ)
        → zscore w t k m ≡ none
        → zscore (zremrangebyscore w t k max) t k m ≡ none
    pub zcount-zadd :
        (w : W) (t : ℕ) (k m : Text) (s : ℕ) (min : ℤ)
        → zscore w t k m ≡ none
        → zcount (zadd w t k s m) t k min ≡ zcount w t k min + (if ltb_ℤ min (pos s) then 1 else 0)
    pub zscore-zadd_other :
        (w : W) (t : ℕ) (k m m' : Text) (s : ℕ)
        → m ≢ m'
        → zscore (zadd w t k s m) t k m' ≡ zscore w t k m'
    -- The first member has the least score.
    pub zfirst_all :
        (w : W) (t : ℕ) (k : Text) (s : ℕ) (min : ℤ)
        → zfirst w t k ≡ some s
        → ltb_ℤ min (pos s) ≡ true
        → zcount w t k min ≡ zcard w t k
    pub zfirst_fewer :
        (w : W) (t : ℕ) (k : Text) (s : ℕ) (min : ℤ)
        → zfirst w t k ≡ some s
        → ltb_ℤ min (pos s) ≡ false
        → zcount w t k min < zcard w t k
    pub zfirst_none : (w : W) (t : ℕ) (k : Text) → zfirst w t k ≡ none → zcard w t k ≡ 0
    -- From then on a key has its members, until it lapses, which is not before the timeout is over.
    pub after_pexpire :
        (w : W) (t t' : ℕ) (k m : Text) (min : ℤ) (ms : ℕ)
        → t ≤ t'
        → ((zcount (pexpire w t k ms) t' k min ≡ zcount w t k min)
            × (zscore (pexpire w t k ms) t' k m ≡ zscore w t k m))
          ⊎ ((t + ms * millisecond ≤ t')
              × (zcount (pexpire w t k ms) t' k min ≡ 0)
              × (zscore (pexpire w t k ms) t' k m ≡ none))
    pub zcount-del :
        (w : W) (t t' : ℕ) (k : Text) (min : ℤ) → t ≤ t' → zcount (del w t k) t' k min ≡ 0
    pub zscore-del : (w : W) (t t' : ℕ) (k m : Text) → t ≤ t' → zscore (del w t k) t' k m ≡ none
