-- ===== src/Locks/Leader/Examples.antt =====
-- A leadership over a database in memory.
use distsync.Common.{◌*◌, ◌≡◌, true, false, not, none, [], ◌∷◌, ◌||◌, ◌&&◌}
use distsync.Redis.{millisecond}
use distsync.Redis.Memory.{Memory, memory_strings, set_px}
use distsync.Lease.Core.{Trip, delivered, canceled, is_error, leadership_lost}
use distsync.Lease.SingleOwner.{SingleOwner}
use distsync.Handle.{is_nil}
use distsync.Handle.Lifecycle.{fires}
use distsync.Locks.Leader.{Leader, Callback, led, handed_over, run_held}
use distsync.Locks.Leader.Errors.{run_held-errors}

abbrev leader : Leader
leader = record {
  ttl = 10_000 * millisecond;
  auto_renew = true;
  watchdog = false;
  fencing = true;
  key = b'{' ∷ b'a' ∷ b'}' ∷ [];
  fkey = b'f' ∷ [];
}

abbrev lead : SingleOwner
lead = record {
  id = b'7' ∷ [];
  key = leader.key;
  fkey = leader.fkey;
  ttl = leader.ttl;
  fencing = true;
  expires_at = 9_904 * millisecond;
}

abbrev empty_memory : Memory
empty_memory = record { strings = λ _. none; zsets = λ _. record { members = []; distinct = tt } }

abbrev led_memory : Memory
led_memory = set_px empty_memory (5 * millisecond) leader.key lead.id 10_000

-- A callback that returns its context's error, after the deadline has passed.
abbrev callback : Callback
callback = record { events = fires (9_904 * millisecond) ∷ []; error = canceled ∷ [] }

abbrev cleanup : Trip
cleanup = record {
  sent = 9_950 * millisecond;
  served = 9_950 * millisecond;
  back = 9_951 * millisecond;
  fate = delivered;
}

run_held-errors_example :
    let at_end = led memory_strings leader lead (6 * millisecond) callback led_memory in
    let error =
      (run_held memory_strings leader lead (6 * millisecond) callback cleanup led_memory).1 in
    let left = (handed_over memory_strings at_end cleanup).2 in
    (is_error error leadership_lost ≡ (
      is_error callback.error leadership_lost
      || (at_end.1.is_lost && is_error (leadership_lost ∷ []) leadership_lost)
      || is_error left leadership_lost))
    × (is_nil error ≡ (is_nil callback.error && not at_end.1.is_lost && is_nil left))
run_held-errors_example =
    run_held-errors memory_strings leader lead (6 * millisecond) callback cleanup led_memory
      leadership_lost
