-- ===== src/Redis/Hashes.antt =====
-- Hashes with a number in one field and a time in another, as the buckets of the rate limiter use
-- them. The manual says that HSET stores the fields and that PEXPIRE sets when the key lapses; the
-- script's `tonumber` gives back the number that HSET was given.
use distsync.Common.{ℕ, ◌+◌, ◌*◌, ◌≤◌, ◌≡◌, ◌⊎◌, Option, none, some, Text}
use distsync.Common.Int.{ℤ}
use distsync.Redis.Commands.{millisecond}

pub record Hashes (H : Type 0) : Type 0 where
  pub amount : H → ℕ → Text → Text → Option ℤ  -- tonumber(HGET key field)
  pub stamp : H → ℕ → Text → Option ℕ  -- tonumber(HGET key 'ts')
  pub hset : H → ℕ → Text → Text → ℤ → ℕ → H  -- HSET key field number 'ts' time
  pub pexpire : H → ℕ → Text → ℕ → H  -- PEXPIRE key ms
  pub del : H → ℕ → Text → H  -- DEL key

module _ {H : Type 0} (redis : Hashes H) where
  open redis use {amount, stamp, hset, pexpire, del}

  pub record HashLaws : Type 0 where
    pub amount-hset :
        (h : H) (t : ℕ) (k f : Text) (v : ℤ) (now : ℕ) → amount (hset h t k f v now) t k f ≡ some v
    pub stamp-hset :
        (h : H) (t : ℕ) (k f : Text) (v : ℤ) (now : ℕ) → stamp (hset h t k f v now) t k ≡ some now
    -- From then on a key has its fields, until it lapses, which is not before the timeout is over.
    pub after_pexpire :
        (h : H) (t t' : ℕ) (k f : Text) (ms : ℕ)
        → t ≤ t'
        → ((amount (pexpire h t k ms) t' k f ≡ amount h t k f)
            × (stamp (pexpire h t k ms) t' k ≡ stamp h t k))
          ⊎ ((t + ms * millisecond ≤ t')
              × (amount (pexpire h t k ms) t' k f ≡ none)
              × (stamp (pexpire h t k ms) t' k ≡ none))
    pub amount-del : (h : H) (t t' : ℕ) (k f : Text) → t ≤ t' → amount (del h t k) t' k f ≡ none
    pub stamp-del : (h : H) (t t' : ℕ) (k : Text) → t ≤ t' → stamp (del h t k) t' k ≡ none
