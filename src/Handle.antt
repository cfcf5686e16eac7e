-- ===== src/Handle.antt =====
-- guard.go: the handle that every guard, permit and leadership embeds. The lease is known by its
-- interface. The deadline's timer may cancel the context while a call is under way; `cut` says
-- whether it did. `joined`: background work was stopped.
pub mod Lifecycle
pub mod Release
pub mod Deadline
pub mod Heartbeat
mod Examples
use distsync.Common.{
  ℕ, ◌≡◌, Bool, true, false, Option, none, some, List, [], ◌∷◌, ◌||◌, ltb, leb, if◌then◌else◌,
}
use distsync.Lease.Core.{Error, lost, transport, is_error, Trip}
use distsync.Lease.Interface.{Methods}

pub record Handle (L : Type 0) : Type 0 where
  pub leas : L
  pub released : Bool
  pub release_done : Bool
  pub is_lost : Bool  -- lostCtx.Err() != nil
  pub deadline_timer : Option ℕ  -- when it fires
  pub joined : Bool

abbrev pub is_nil : Error → Bool
is_nil [] = true
is_nil (e ∷ es) = false

module _ {L : Type 0} where
  -- newHandle
  unfoldable pub new_handle : L → Handle L
  new_handle l = record {
    leas = l;
    released = false;
    release_done = false;
    is_lost = false;
    deadline_timer = none;
    joined = false;
  }

  -- markLost
  unfoldable pub mark_lost : Handle L → Handle L
  mark_lost h = record h { is_lost = true; deadline_timer = none }

  -- stop
  unfoldable pub stop : Handle L → Handle L
  unfolding mark_lost
  stop h = record (mark_lost h) { released = true; joined = true }

module _ {Db L : Type 0} (methods : Methods Db L) where
  open methods use {expires_at}

  -- checkDeadline, at a time
  unfoldable pub check_deadline : Handle L → ℕ → Handle L
  check_deadline h now =
      if h.is_lost
      then h
      else if leb (expires_at h.leas) now
      then record h { is_lost = true; deadline_timer = none }
      else record h { deadline_timer = some (expires_at h.leas) }

  -- The end of `withLeaseDeadline`, with the time that it reads.
  pub checked : Handle L → Bool → ℕ → Db × L × Error → Db × Handle L × Error
  unfolding mark_lost
  checked h cut back (db, l, e) =
      let h' = record h { leas = l } in
      if cut || is_error e lost || leb (expires_at l) back
      then (db, mark_lost h', lost ∷ e)
      else (db, h', e)

  -- withLeaseDeadline, entered at the time `now`
  unfoldable pub with_lease_deadline :
      Handle L → ℕ → Bool → ℕ → (L → Db → Db × L × Error) → Db → Db × Handle L × Error
  unfolding checked mark_lost
  with_lease_deadline h now cut back call db =
      if h.released || h.is_lost
      then (db, h, lost ∷ [])
      else if leb (expires_at h.leas) now
      then (db, mark_lost h, lost ∷ [])
      else checked h cut back (call h.leas db)

  pub noted : Db × Handle L × Error → Db × Handle L × Error
  unfolding mark_lost
  noted (db, h, e) = if is_error e lost then (db, mark_lost h, e) else (db, h, e)

  -- renew
  unfoldable pub renew : Handle L → ℕ → Bool → Trip → Db → Db × Handle L × Error
  unfolding with_lease_deadline noted
  renew h now cut trip db =
      if h.released || h.is_lost
      then (db, h, lost ∷ [])
      else noted (with_lease_deadline h now cut trip.back (λ l d. methods.renew l trip d) db)

  -- What the function that `startWatchdog` runs at each tick asks of the lease.
  unfoldable pub check_held : Trip → L → Db → Db × L × Error
  check_held trip l db = elim (methods.held l trip db) [
    | none ↦ (db, l, transport ∷ [])
    | some true ↦ (db, l, [])
    | some false ↦ (db, l, lost ∷ [])
  ]

  unfoldable pub watch : Handle L → ℕ → Bool → Trip → Db → Db × Handle L × Error
  unfolding with_lease_deadline
  watch h now cut trip db = with_lease_deadline h now cut trip.back (check_held trip) db

  unfoldable pub finished : Handle L → Db × L × Error → Db × Handle L × Error
  finished h (db, l, e) = (db, record h { leas = l; release_done = is_nil e || is_error e lost }, e)

  -- release
  unfoldable pub release : Handle L → Trip → Db → Db × Handle L × Error
  unfolding finished stop
  release h trip db =
      if h.release_done then (db, h, []) else finished (stop h) (methods.release h.leas trip db)
