-- ===== src/Lease/PermitSet/Examples.antt =====
-- Runs of the semaphore scripts over a database in memory, and the theorems at them.
use distsync.Common.{
  ◌*◌, ◌≤◌, ◌≡◌, refl, inr, some, subst, sym, true, none, List, [], ◌∷◌, Text, Text_discrete,
  ℕ_discrete, arith, length,
}
use std.HLevel.{hedberg}
use mathlib.Core.List.{Mem, Nodup-cons, Nodup-nil, not-mem-nil, mem-singleton}
use distsync.Redis.{millisecond, is_some}
use distsync.Redis.Memory.{Memory, score, insert, remove, purge, put}
use distsync.Redis.Memory.SetProofs.{
  memory_sets, memory_set_laws, zscore, zcard, zadd, zrem, zremrangebyscore, with_set,
}
use distsync.Lease.Core.{request_expiry, milliseconds}
use distsync.Lease.PermitSet.Scripts.{
  sem_acquire, sem_renew, sem_release, is_live, count_owned, add_all, all_live,
}
use distsync.Lease.PermitSet.Laws.{has}
use distsync.Lease.PermitSet.Capacity.{Call, acquires, renews, run, run_capacity}
use distsync.Lease.PermitSet.Valid.{IsValid, IsGrant, names, clock, valid_capacity}

abbrev key : Text
key = b's' ∷ []

abbrev a : Text
a = b'a' ∷ []

abbrev b : Text
b = b'b' ∷ b'b' ∷ []

abbrev c : Text
c = b'c' ∷ []

abbrev empty_memory : Memory
empty_memory = record { strings = λ _. none; zsets = λ _. record { members = []; distinct = tt } }

-- Two permits of 100 ms, taken at 0 and at 50; at 60 a third one does not fit.
abbrev calls : List Call
calls = acquires 0 100 (a ∷ []) ∷ acquires 50 100 (b ∷ []) ∷ acquires 60 100 (c ∷ []) ∷ []

both_held :
    (m : Text)
    → Mem m (a ∷ [])
    → is_some (zscore (run memory_sets key 2 empty_memory calls) key m) ≡ true
unfolding run sem_acquire sem_renew sem_release count_owned add_all all_live zscore zcard zadd zrem
    zremrangebyscore with_set score insert remove purge put has Text_discrete ℕ_discrete
both_held m i = rw ((mem-singleton (hedberg Text_discrete)).0 i) refl

run_capacity_example : length (a ∷ []) ≤ 2
unfolding zcard
run_capacity_example =
    run_capacity memory_sets memory_set_laws key 2 empty_memory calls (a ∷ []) (omega arith)
      (Nodup-cons.1 (not-mem-nil, Nodup-nil)) both_held

-- The database after the first two calls.
abbrev full : Memory
full = run memory_sets key 2 empty_memory (acquires 0 100 (a ∷ []) ∷ acquires 50 100 (b ∷ []) ∷ [])

has_one : (t m : Text) → has (t ∷ []) m ≡ true → t ≡ m
unfolding has
has_one t m e = ground arith

first_live : is_live memory_sets 60 (zscore full key a) ≡ true
unfolding run sem_acquire sem_renew sem_release count_owned add_all all_live zscore zcard zadd zrem
    zremrangebyscore with_set score insert remove purge put has Text_discrete ℕ_discrete
first_live = refl

a_live : (m : Text) → has (a ∷ []) m ≡ true → is_live memory_sets 60 (zscore full key m) ≡ true
a_live m e = rw (← has_one a m e) first_live

-- One permit is taken at 1 ms and renewed at 40, and at 50 another is taken; at 60 a third one does
-- not fit.
abbrev renewed_calls : List Call
renewed_calls =
    acquires 1 100 (a ∷ [])
    ∷ renews 40 100 (a ∷ [])
    ∷ acquires 50 100 (b ∷ [])
    ∷ acquires 60 100 (c ∷ [])
    ∷ []

renewed :
    (sem_renew memory_sets
      (run memory_sets key 2 empty_memory (acquires 1 100 (a ∷ []) ∷ []))
      key
      40
      100
      (a ∷ [])).1
    ≡ some 1
unfolding run sem_acquire sem_renew count_owned add_all all_live zscore zcard zadd zrem
    zremrangebyscore with_set score insert remove purge put has Text_discrete ℕ_discrete
renewed = refl

-- At 130 ms the first permit is valid.
still-IsValid : IsValid memory_sets key 2 (130 * millisecond) empty_memory renewed_calls a
unfolding IsValid IsGrant has names clock milliseconds request_expiry Text_discrete ℕ_discrete
still-IsValid = (
  acquires 1 100 (a ∷ []) ∷ [],
  renews 40 100 (a ∷ []),
  acquires 50 100 (b ∷ []) ∷ acquires 60 100 (c ∷ []) ∷ [],
  40 * millisecond,
  100 * millisecond,
  refl,
  (a ∷ [], refl, inr (refl, renewed)),
  omega arith,
  inr (omega arith),
  omega arith,
  ((refl, omega arith), ((refl, omega arith), tt)),
)

all-IsValid :
    (m : Text)
    → Mem m (a ∷ [])
    → IsValid memory_sets key 2 (130 * millisecond) empty_memory renewed_calls m
all-IsValid m i =
    subst (IsValid memory_sets key 2 (130 * millisecond) empty_memory renewed_calls)
      (sym ((mem-singleton (hedberg Text_discrete)).0 i)) still-IsValid

valid_capacity_example : length (a ∷ []) ≤ 2
unfolding zcard
valid_capacity_example =
    valid_capacity memory_sets memory_set_laws key 2 empty_memory renewed_calls (130 * millisecond)
      (a ∷ []) (omega arith) (Nodup-cons.1 (not-mem-nil, Nodup-nil)) all-IsValid
