-- ===== src/Redis/Memory/CounterProofs.antt =====
-- Counters in memory, and that they have the laws of Redis.
use distsync.Common.{
  ℕ, ◌+◌, ◌-◌, ◌*◌, ◌<◌, ◌≤◌, ◌≡◌, refl, true, Option, none, some, Text, arith, if◌then◌else◌,
}
use distsync.Redis.Commands.{millisecond}
use distsync.Redis.Counting.{Counters, CounterLaws}
use distsync.Redis.Memory.{alive, put}

pub record Count : Type 0 where
  pub n : ℕ
  pub until : Option ℕ

abbrev pub Counts : Type 0
Counts = Text → Count

unfoldable pub value : Counts → ℕ → Text → ℕ
value c t k = if alive (c k).until t then (c k).n else 0

unfoldable pub incrby : Counts → ℕ → Text → ℕ → Counts × ℕ
unfolding value put
incrby c t k n =
    let u = if alive (c k).until t then (c k).until else none in
    (put c k (record { n = value c t k + n; until = u }), value c t k + n)

unfoldable pub decrby : Counts → ℕ → Text → ℕ → Counts × ℕ
unfolding value put
decrby c t k n =
    let u = if alive (c k).until t then (c k).until else none in
    (put c k (record { n = value c t k - n; until = u }), value c t k - n)

unfoldable pub expire : Counts → ℕ → Text → ℕ → Counts
unfolding put
expire c t k ms =
    if alive (c k).until t
    then put c k (record { n = (c k).n; until = some (t + ms * millisecond) })
    else c

unfoldable pub delete : Counts → Text → Counts
unfolding put
delete c k = put c k (record { n = 0; until = none })

abbrev pub memory_counters : Counters Counts
memory_counters = record {
  value = value;
  incrby = incrby;
  decrby = decrby;
  pexpire = expire;
  del = λ c t k. delete c k;
}

earlier : (u : Option ℕ) (t t' : ℕ) → t ≤ t' → alive u t' ≡ true → alive u t ≡ true
earlier none t t' le e = e
earlier (some u) t t' le e = ground arith

value-expire :
    (c : Counts) (t t' : ℕ) (k : Text) (ms : ℕ)
    → t ≤ t'
    → t' < t + ms * millisecond
    → value (expire c t k ms) t' k ≡ value c t k
unfolding value expire put
value-expire c t t' k ms le lt = ground (arith, earlier (c k).until t t' le)

value-decrby :
    (c : Counts) (t t' : ℕ) (k : Text) (n : ℕ)
    → t ≤ t'
    → n ≤ value c t' k
    → n ≤ value c t k
    → value (decrby c t k n).0 t' k ≡ value c t' k - n
unfolding value decrby put
value-decrby c t t' k n le h h' = ground (arith, h, h', earlier (c k).until t t' le)

pub memory_counter_laws : CounterLaws memory_counters
unfolding value incrby decrby expire delete put
memory_counter_laws = record {
  incrby-count = λ c t k n. refl;
  value-incrby = λ c t k n. ground arith;
  value-decrby = value-decrby;
  value-pexpire = value-expire;
  value-del = λ c t t' k le. ground arith;
  value-incrby_other = λ c t t' k n k' ne le. ground (arith, ne);
  value-decrby_other = λ c t t' k n k' ne le. ground (arith, ne);
  value-pexpire_other = λ c t t' k ms k' ne le. ground (arith, ne);
}
