-- ===== src/Lease/SingleOwner/Examples.antt =====
-- Runs of the leases over a database in memory, and the theorems at them.
use distsync.Common.{
  ℕ, ◌+◌, ◌*◌, ◌≤◌, ◌≡◌, refl, true, false, none, some, [], ◌∷◌, Text, Text_discrete,
  Reply_discrete, ℕ_discrete, arith,
}
use distsync.Common.Decimal.{decimal, decimal-injective, digits, to_number}
use distsync.Redis.{millisecond}
use distsync.Redis.Memory.{Memory, memory_strings, get, set_px, incr, put}
use distsync.Redis.Memory.StringProofs.{memory_string_laws}
use distsync.Lease.Core.{
  Trip, delivered, busy, lost, request_expiry, milliseconds, is_error, transmit,
}
use distsync.Lease.SingleOwner.{SingleOwner, accept, fence_flag, try_acquire, release}
use distsync.Lease.SingleOwner.Methods.{release_stale}
use distsync.Lease.SingleOwner.Scripts.{single_acquire}
use distsync.Lease.SingleOwner.System.{
  World, Reach, here, next, pass, serves_acquire, takes_acquire, serve_acquire, with_grant,
}
use distsync.Lease.SingleOwner.Invariant.{Holds}
use distsync.Lease.SingleOwner.Exclusion.{IsUnused, mutual_exclusion, holder_fence}

abbrev lock_key : Text
lock_key = b'{' ∷ b'a' ∷ b'}' ∷ []

abbrev counter_key : Text
counter_key = b'{' ∷ b'a' ∷ b'}' ∷ b':' ∷ b'f' ∷ []

-- 10 s
abbrev ten_seconds : ℕ
ten_seconds = 10_000 * millisecond

abbrev lease_of : ℕ → SingleOwner
lease_of i = record {
  id = decimal i;
  key = lock_key;
  fkey = counter_key;
  ttl = ten_seconds;
  fencing = true;
  expires_at = 0;
}

abbrev empty_memory : Memory
empty_memory = record { strings = λ _. none; zsets = λ _. record { members = []; distinct = tt } }

abbrev start : World Memory
start = record {
  now = 5 * millisecond;
  db = empty_memory;
  clients =
      λ i. record { lease = lease_of i; served = none; fence = 0; lost = false; recovered = false };
  minted = 0;
}

start-IsUnused : IsUnused memory_strings lock_key counter_key start
unfolding get milliseconds
start-IsUnused = record {
  apart = ground arith;
  tokens = decimal-injective;
  key = λ _. refl;
  fkey = λ _. refl;
  timed = λ _. omega arith;
  unserved = λ _. refl;
  unheld = λ _. refl;
  unfenced = λ _. refl;
  free = refl;
  no_counter = refl;
  none_minted = refl;
}

-- Clients 0 and 1 ask, in this order; 4 ms later client 0 reads its grant.
abbrev asked : World Memory
asked = serve_acquire memory_strings (serve_acquire memory_strings start 0) 1

abbrev later : World Memory
later = record asked { now = asked.now + 4 * millisecond }

abbrev granted_lease : SingleOwner
granted_lease = record (lease_of 0) { expires_at = request_expiry (5 * millisecond) ten_seconds }

abbrev granted : World Memory
granted = with_grant memory_strings later 0 granted_lease false

granted-Reach : Reach memory_strings start granted
unfolding serve_acquire single_acquire fence_flag get set_px incr put accept request_expiry decimal
    digits to_number milliseconds Text_discrete Reply_discrete ℕ_discrete
granted-Reach =
    next (next (next (next here (serves_acquire 0)) (serves_acquire 1)) (pass (4 * millisecond)))
      (takes_acquire 0 (5 * millisecond) (5 * millisecond) granted_lease refl (omega arith) refl)

granted-Holds : Holds granted 0
unfolding serve_acquire single_acquire fence_flag get set_px incr put accept request_expiry decimal
    digits to_number milliseconds Text_discrete Reply_discrete ℕ_discrete
granted-Holds = (refl, omega arith)

mutual_exclusion_example : ◌≡◌ {A = ℕ} 0 0
unfolding ℕ_discrete
mutual_exclusion_example =
    mutual_exclusion memory_strings memory_string_laws lock_key counter_key start-IsUnused
      granted-Reach 0 0 refl refl granted-Holds granted-Holds

holder_fence_example :
    ((granted.clients 0).fence ≡ granted.minted)
    × ((granted.clients 1).fence ≤ (granted.clients 0).fence)
unfolding ℕ_discrete
holder_fence_example =
    holder_fence memory_strings memory_string_laws lock_key counter_key start-IsUnused granted-Reach
      0 1 refl granted-Holds refl

-- A database whose counter stands at 3.
abbrev used : Memory
used = record empty_memory {
  strings = put (λ _. none) counter_key (some (record { value = decimal 3; until = none }));
}

abbrev lease_0 : SingleOwner
lease_0 = lease_of 0

abbrev second_at : ℕ → ℕ
second_at n = 1_000 * n * millisecond

abbrev trip_at : ℕ → Trip
trip_at n = record {
  sent = second_at n;
  served = second_at n;
  back = second_at n + millisecond;
  fate = delivered;
}

abbrev slow_trip : Trip
slow_trip = record (trip_at 1) { back = second_at 11 }

release_stale_example : (release memory_strings lease_0 (trip_at 1) used).db ≡ used
unfolding get put Text_discrete ℕ_discrete
release_stale_example =
    (release_stale memory_strings memory_string_laws lease_0 (trip_at 1) used (λ e. cc)).0

-- The lock held by lease `i` for an hour.
abbrev held_by : ℕ → Memory
held_by i = record empty_memory {
  strings =
      put (λ _. none) lock_key
        (some (record { value = decimal i; until = some (second_at 3_600) }));
}

busy_reply :
    is_error (try_acquire memory_strings lease_0 (trip_at 1) (trip_at 2) (held_by 1)).error busy
    ≡ true
unfolding try_acquire transmit is_error single_acquire get put decimal digits Text_discrete
    Reply_discrete ℕ_discrete
busy_reply = refl
