-- ===== src/Redis/Memory.antt =====
-- A database in memory, a value of each command, on which theorems are run. Its laws are in the
-- modules below.
pub mod StringProofs
pub mod SetProofs
pub mod WaitingProofs
pub mod CounterProofs
pub mod HashProofs
pub mod WindowProofs
use distsync.Common.{
  ℕ, suc, ◌+◌, ◌*◌, ◌<◌, ◌≡◌, Bool, true, false, Option, none, some, List, [], ◌∷◌, ite, Text,
  Text_discrete, arith, ltb, leb, length, if◌then◌else◌,
}
use distsync.Common.Decimal.{decimal, to_number}
use distsync.Redis.Commands.{Strings, SortedSets, millisecond, is_some, above}

-- A string with the time at which it lapses, if any.
pub record Entry : Type 0 where
  pub value : Text
  pub until : Option ℕ

-- Members with their scores.
abbrev pub Members : Type 0
Members = List (Text × ℕ)

unfoldable pub score : Members → Text → Option ℕ
unfolding Text_discrete
score [] m = none
score ((n, s) ∷ r) m = ite (Text_discrete n m) (some s) (score r m)

abbrev pub Distinct : Members → Type 0
Distinct [] = Unit
Distinct ((n, s) ∷ r) = (score r n ≡ none) × Distinct r

pub record ZSet : Type 0 where
  pub members : Members
  pub distinct : Distinct members

pub record Memory : Type 0 where
  pub strings : Text → Option Entry
  pub zsets : Text → ZSet

unfoldable pub put {ℓ} : {A : Type ℓ} → (Text → A) → Text → A → Text → A
unfolding Text_discrete
put f k a j = ite (Text_discrete k j) a (f j)

abbrev pub alive : Option ℕ → ℕ → Bool
alive none now = true
alive (some u) now = ltb now u

abbrev pub value_at : Option Entry → ℕ → Option Text
value_at none now = none
value_at (some e) now = if alive e.until now then some e.value else none

unfoldable pub get : Memory → ℕ → Text → Option Text
get m now k = value_at (m.strings k) now

unfoldable pub set_px : Memory → ℕ → Text → Text → ℕ → Memory
unfolding put
set_px m now k v ms = record m {
  strings = put m.strings k (some (record { value = v; until = some (now + ms * millisecond) }));
}

abbrev pub timed : Option Entry → ℕ → ℕ → Option Entry
timed none now u = none
timed (some e) now u = if alive e.until now then some (record e { until = some u }) else some e

unfoldable pub pexpire : Memory → ℕ → Text → ℕ → Memory
unfolding put
pexpire m now k ms = record m {
  strings = put m.strings k (timed (m.strings k) now (now + ms * millisecond));
}

unfoldable pub del : Memory → ℕ → Text → Memory × ℕ
unfolding put get
del m now k = (record m { strings = put m.strings k none }, if is_some (get m now k) then 1 else 0)

abbrev pub next : Option Text → ℕ
next none = 1
next (some v) = elim (to_number v) [ none ↦ 1 | some n ↦ n + 1 ]

abbrev pub counted : Option Entry → ℕ → Text → Entry
counted none now v = record { value = v; until = none }
counted (some e) now v =
    if alive e.until now then record e { value = v } else record { value = v; until = none }

unfoldable pub incr : Memory → ℕ → Text → Memory × ℕ
unfolding put get
incr m now k =
    let n = next (get m now k) in
    (record m { strings = put m.strings k (some (counted (m.strings k) now (decimal n))) }, n)

abbrev pub memory_strings : Strings Memory
memory_strings = record {
  get = get;
  exists = λ m now k. is_some (get m now k);
  set_px = set_px;
  set_nx_px = λ m now k v ms. if is_some (get m now k) then none else some (set_px m now k v ms);
  pexpire = pexpire;
  del = del;
  incr = incr;
}

unfoldable pub insert : ℕ → Text → Members → Members
unfolding Text_discrete
insert s m [] = (m, s) ∷ []
insert s m ((n, x) ∷ r) = ite (Text_discrete n m) ((n, s) ∷ r) ((n, x) ∷ insert s m r)

unfoldable pub remove : Text → Members → Members
unfolding Text_discrete
remove m [] = []
remove m ((n, x) ∷ r) = ite (Text_discrete n m) r ((n, x) ∷ remove m r)

-- Without the members of a score up to `max`.
unfoldable pub purge : ℕ → Members → Members
purge max [] = []
purge max ((n, x) ∷ r) = if leb x max then purge max r else (n, x) ∷ purge max r
