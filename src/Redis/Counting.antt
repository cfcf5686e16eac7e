-- ===== src/Redis/Counting.antt =====
-- Counters by INCRBY and DECRBY, which carry a timeout. A counter is read as a natural number: the
-- scripts take off only what they have added at the same time.
use distsync.Common.{ℕ, ◌+◌, ◌-◌, ◌*◌, ◌<◌, ◌≤◌, ◌≡◌, ◌≢◌, Text}
use distsync.Redis.Commands.{millisecond}

pub record Counters (C : Type 0) : Type 0 where
  pub value : C → ℕ → Text → ℕ  -- GET key, 0 when it does not exist
  pub incrby : C → ℕ → Text → ℕ → C × ℕ  -- INCRBY key n
  pub decrby : C → ℕ → Text → ℕ → C × ℕ  -- DECRBY key n
  pub pexpire : C → ℕ → Text → ℕ → C  -- PEXPIRE key ms
  pub del : C → ℕ → Text → C  -- DEL key

module _ {C : Type 0} (redis : Counters C) where
  open redis use {value, incrby, decrby, pexpire, del}

  pub record CounterLaws : Type 0 where
    pub incrby-count : (c : C) (t : ℕ) (k : Text) (n : ℕ) → (incrby c t k n).1 ≡ value c t k + n
    pub value-incrby :
        (c : C) (t : ℕ) (k : Text) (n : ℕ) → value (incrby c t k n).0 t k ≡ value c t k + n
    pub value-decrby :
        (c : C) (t t' : ℕ) (k : Text) (n : ℕ)
        → t ≤ t'
        → n ≤ value c t' k
        → n ≤ value c t k
        → value (decrby c t k n).0 t' k ≡ value c t' k - n
    -- A counter with a timeout keeps its value until then.
    pub value-pexpire :
        (c : C) (t t' : ℕ) (k : Text) (ms : ℕ)
        → t ≤ t'
        → t' < t + ms * millisecond
        → value (pexpire c t k ms) t' k ≡ value c t k
    pub value-del : (c : C) (t t' : ℕ) (k : Text) → t ≤ t' → value (del c t k) t' k ≡ 0
    -- No command changes another counter, at any later time.
    pub value-incrby_other :
        (c : C) (t t' : ℕ) (k : Text) (n : ℕ) (k' : Text)
        → k ≢ k'
        → t ≤ t'
        → value (incrby c t k n).0 t' k' ≡ value c t' k'
    pub value-decrby_other :
        (c : C) (t t' : ℕ) (k : Text) (n : ℕ) (k' : Text)
        → k ≢ k'
        → t ≤ t'
        → value (decrby c t k n).0 t' k' ≡ value c t' k'
    pub value-pexpire_other :
        (c : C) (t t' : ℕ) (k : Text) (ms : ℕ) (k' : Text)
        → k ≢ k'
        → t ≤ t'
        → value (pexpire c t k ms) t' k' ≡ value c t' k'
