-- ===== src/Redis/Waiting.antt =====
-- Sorted sets and hashes that carry a timeout, as the arrival queue of the read-write lock does: their
-- readings take the server's time. The laws say what a command does for readings at its own time,
-- which is all that a script sees.
use distsync.Common.{
  ℕ, ◌<◌, ◌≡◌, Option, none, some, List, [], ◌∷◌, ◌++◌, ite, Text, Text_discrete, ltb,
  if◌then◌else◌, All, arith, refl,
}

abbrev pub score_in : List (Text × ℕ) → Text → Option ℕ
score_in [] m = none
score_in ((n, s) ∷ es) m = ite (Text_discrete n m) (some s) (score_in es m)

abbrev pub first_of : List (Text × ℕ) → Option Text
first_of [] = none
first_of ((n, s) ∷ es) = some n

unfoldable pub members_below : List (Text × ℕ) → ℕ → List Text
members_below [] max = []
members_below ((n, s) ∷ es) max =
    let rest = members_below es max in if ltb s max then n ∷ rest else rest

unfoldable pub without : List (Text × ℕ) → Text → List (Text × ℕ)
without [] m = []
without ((n, s) ∷ es) m = let rest = without es m in ite (Text_discrete n m) rest ((n, s) ∷ rest)

pub without-absent : (es : List (Text × ℕ)) (m : Text) → score_in es m ≡ none → without es m ≡ es
unfolding without
without-absent [] m h = refl
without-absent ((n, s) ∷ es) m h = ground (arith, h, without-absent es m)

abbrev pub Distinct : List (Text × ℕ) → Type 0
Distinct [] = Unit
Distinct ((n, s) ∷ es) = (score_in es n ≡ none) × Distinct es

pub record Queues (Q : Type 0) : Type 0 where
  pub range : Q → ℕ → Text → List (Text × ℕ)  -- ZRANGE key 0 -1 WITHSCORES, for the laws
  pub zscore : Q → ℕ → Text → Text → Option ℕ  -- ZSCORE key member
  pub head : Q → ℕ → Text → Option Text  -- ZRANGE key 0 0
  pub below : Q → ℕ → Text → ℕ → List Text  -- ZRANGEBYSCORE key -inf (max
  pub zadd : Q → ℕ → Text → ℕ → Text → Q  -- ZADD key score member
  pub zrem : Q → ℕ → Text → Text → Q  -- ZREM key member
  pub pexpire : Q → ℕ → Text → ℕ → Q  -- PEXPIRE key ms

module _ {Q : Type 0} (redis : Queues Q) where
  open redis use {range, zscore, head, below, zadd, zrem, pexpire}

  pub record QueueLaws : Type 0 where
    pub zscore_lem : (q : Q) (t : ℕ) (k m : Text) → zscore q t k m ≡ score_in (range q t k) m
    pub head_lem : (q : Q) (t : ℕ) (k : Text) → head q t k ≡ first_of (range q t k)
    pub below_lem :
        (q : Q) (t : ℕ) (k : Text) (max : ℕ) → below q t k max ≡ members_below (range q t k) max
    pub range-Distinct : (q : Q) (t : ℕ) (k : Text) → Distinct (range q t k)
    -- Members stand in the order of their scores: one with the greatest score is the last.
    pub range-zadd_last :
        (q : Q) (t : ℕ) (k : Text) (s : ℕ) (m : Text)
        → score_in (range q t k) m ≡ none
        → All (λ e. e.1 < s) (range q t k)
        → range (zadd q t k s m) t k ≡ range q t k ++ (m, s) ∷ []
    pub range-zrem :
        (q : Q) (t : ℕ) (k m : Text) → range (zrem q t k m) t k ≡ without (range q t k) m
    pub range-pexpire :
        (q : Q) (t : ℕ) (k : Text) (ms : ℕ) → 0 < ms → range (pexpire q t k ms) t k ≡ range q t k

-- The scripts store numbers below 2^53 in hashes, which are written and read back exactly.
pub record Hashes (H : Type 0) : Type 0 where
  pub hget : H → ℕ → Text → Text → Option ℕ  -- HGET key field
  pub hset : H → ℕ → Text → Text → ℕ → H  -- HSET key field value
  pub hdel : H → ℕ → Text → Text → H  -- HDEL key field
  pub hpexpire : H → ℕ → Text → ℕ → H  -- PEXPIRE key ms

module _ {H : Type 0} (redis : Hashes H) where
  open redis use {hget, hset, hdel, hpexpire}

  pub record HashLaws : Type 0 where
    pub hget-hset :
        (h : H) (t : ℕ) (k f : Text) (v : ℕ) (f' : Text)
        → hget (hset h t k f v) t k f' ≡ ite (Text_discrete f f') (some v) (hget h t k f')
    pub hget-hdel :
        (h : H) (t : ℕ) (k f f' : Text)
        → hget (hdel h t k f) t k f' ≡ ite (Text_discrete f f') none (hget h t k f')
    pub hget-hpexpire :
        (h : H) (t : ℕ) (k : Text) (ms : ℕ) (f : Text)
        → 0 < ms
        → hget (hpexpire h t k ms) t k f ≡ hget h t k f
