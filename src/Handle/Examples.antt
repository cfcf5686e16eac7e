-- ===== src/Handle/Examples.antt =====
-- The life of one handle on an exclusive lease over a database in memory.
use distsync.Common.{
  ℕ, ◌+◌, ◌*◌, ◌/◌, ◌≤◌, ◌<◌, ◌⊎◌, arith, ◌≡◌, ◌||◌, refl, true, false, none, some, List, [], ◌∷◌,
  Text, Text_discrete, Reply_discrete, ℕ_discrete,
}
use distsync.Redis.{millisecond}
use distsync.Redis.Memory.{Memory, memory_strings, get, set_px, put, del, pexpire}
use distsync.Lease.Core.{
  Trip, delivered, reply_lost, lost, request_expiry, milliseconds, is_error, transmit, arrive,
}
use distsync.Lease.SingleOwner.{SingleOwner, extend}
use distsync.Lease.SingleOwner.Scripts.{single_renew, single_release}
use distsync.Lease.SingleOwner.Guarded.{single_owner, single_owner_laws}
use distsync.Handle.{Handle, new_handle, mark_lost, check_deadline, is_nil, renew, release}
use distsync.Handle.Lifecycle.{Event, renews, watches, fires, live_through, loss_is_final}
use distsync.Handle.Release.{release_once}
use distsync.Handle.Heartbeat.{
  Beat, start_renewal, start_watchdog, renewal_interval, heartbeat_until_lost,
  renewal_interval_bounds,
}
use distsync.Handle.Deadline.{IsWatched, never_behind}

abbrev key : Text
key = b'{' ∷ b'a' ∷ b'}' ∷ []

abbrev token : Text
token = b'7' ∷ []

-- A lease of 10 s taken at 5 ms.
abbrev held_lease : SingleOwner
held_lease = record {
  id = token;
  key = key;
  fkey = b'f' ∷ [];
  ttl = 10_000 * millisecond;
  fencing = true;
  expires_at = 9_904 * millisecond;
}

abbrev empty_memory : Memory
empty_memory = record { strings = λ _. none; zsets = λ _. record { members = []; distinct = tt } }

abbrev locked : Memory
locked = set_px empty_memory (5 * millisecond) key token 10_000

abbrev handle : Handle SingleOwner
handle = record {
  leas = held_lease;
  released = false;
  release_done = false;
  is_lost = false;
  deadline_timer = some (9_904 * millisecond);
  joined = false;
}

abbrev trip_at : ℕ → Trip
trip_at t = record { sent = t; served = t; back = t + millisecond; fate = delivered }

abbrev lost_trip : Trip
lost_trip = record {
  sent = 20 * millisecond;
  served = 0;
  back = 30 * millisecond;
  fate = reply_lost;
}

abbrev events : List Event
events =
    renews (10 * millisecond) false (trip_at (10 * millisecond))
    ∷ watches (20 * millisecond) false (trip_at (20 * millisecond))
    ∷ fires (9_904 * millisecond)
    ∷ []

lost_handle : (mark_lost handle).is_lost ≡ true
unfolding mark_lost
lost_handle = refl

loss_is_final_example :
    (live_through (single_owner memory_strings) (locked, mark_lost handle) events).1.is_lost ≡ true
loss_is_final_example =
    (loss_is_final (single_owner memory_strings) locked (mark_lost handle) events 0 false
      (trip_at 0) lost_handle).0

release_answered :
    (is_nil (release (single_owner memory_strings) handle (trip_at (50 * millisecond)) locked).2
      || is_error
          (release (single_owner memory_strings) handle (trip_at (50 * millisecond)) locked).2
          lost)
    ≡ true
unfolding release distsync.Lease.SingleOwner.release single_owner transmit single_release is_error
    arrive get set_px put del Text_discrete Reply_discrete ℕ_discrete
release_answered = refl

release_unanswered :
    (is_nil (release (single_owner memory_strings) handle lost_trip locked).2
      || is_error (release (single_owner memory_strings) handle lost_trip locked).2 lost)
    ≡ false
unfolding release distsync.Lease.SingleOwner.release single_owner transmit single_release is_error
    arrive get set_px put del Text_discrete Reply_discrete ℕ_discrete
release_unanswered = refl

release_once_example :
    let r = release (single_owner memory_strings) handle (trip_at (50 * millisecond)) locked in
    let s = live_through (single_owner memory_strings) (r.0, r.1) events in
    release (single_owner memory_strings) s.1 (trip_at (60 * millisecond)) s.0 ≡ (s.0, s.1, [])
release_once_example =
    release_once (single_owner memory_strings) handle (trip_at (50 * millisecond)) locked events
      (trip_at (60 * millisecond)) release_answered

never_behind_example :
    IsWatched
      (single_owner memory_strings)
      (live_through
        (single_owner memory_strings)
        (
          locked,
          check_deadline (single_owner memory_strings) (new_handle held_lease) (6 * millisecond),
        )
        events).1
never_behind_example =
    never_behind (single_owner memory_strings) (single_owner_laws memory_strings) held_lease
      (6 * millisecond) locked events

renewed_early :
    (renew
      (single_owner memory_strings)
      handle
      (10 * millisecond)
      false
      (trip_at (10 * millisecond))
      locked).2
    ≡ []
unfolding renew distsync.Lease.SingleOwner.renew single_owner extend transmit single_renew is_error
    arrive get set_px put pexpire request_expiry milliseconds Text_discrete Reply_discrete
    ℕ_discrete
renewed_early = refl

abbrev beats : List Beat
beats =
    record {
      between = events;
      stopped = false;
      now = 9_905 * millisecond;
      cut = false;
      trip = trip_at (9_905 * millisecond);
      over = false;
    }
    ∷ []

abbrev beat : Beat
beat = record {
  between = renews (10 * millisecond) false (trip_at (10 * millisecond)) ∷ [];
  stopped = false;
  now = 20 * millisecond;
  cut = false;
  trip = trip_at (20 * millisecond);
  over = false;
}

heartbeat_until_lost_example :
    ((start_renewal
        (single_owner memory_strings)
        (locked, new_handle held_lease)
        (6 * millisecond)
        (beat ∷ beats)).1
      ≡ (start_renewal
          (single_owner memory_strings)
          (locked, new_handle held_lease)
          (6 * millisecond)
          (beat ∷ beats)).0.1.is_lost)
    × ((start_watchdog
          (single_owner memory_strings)
          (locked, new_handle held_lease)
          (6 * millisecond)
          (beat ∷ beats)).1
        ≡ (start_watchdog
            (single_owner memory_strings)
            (locked, new_handle held_lease)
            (6 * millisecond)
            (beat ∷ beats)).0.1.is_lost)
heartbeat_until_lost_example =
    heartbeat_until_lost (single_owner memory_strings) locked (new_handle held_lease)
      (6 * millisecond) beat beats (refl, (refl, tt))

renewal_interval_bounds_example :
    (4 * 3_333_333_333 / 5 ≤ renewal_interval (10_000 * millisecond) 1)
    × (renewal_interval (10_000 * millisecond) 1 ≤ 4_000 * millisecond)
    × ((10_000 * millisecond < 12 * millisecond)
        ⊎ (900 * millisecond + 2 * renewal_interval (10_000 * millisecond) 1
            < request_expiry 0 (10_000 * millisecond)))
renewal_interval_bounds_example =
    renewal_interval_bounds (10_000 * millisecond) 1 0 (900 * millisecond) (omega arith)
      (omega arith) (omega arith)
