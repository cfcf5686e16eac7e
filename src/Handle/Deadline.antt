-- ===== src/Handle/Deadline.antt =====
-- The deadline's timer of a handle: it never runs behind the lease.
use distsync.Common.{
  ℕ, ◌<◌, ◌≤◌, ◌≡◌, ◌⊎◌, inl, inr, refl, Bool, true, false, some, List, [], ◌∷◌, leb, arith,
  Bool-cases, ◌∙◌,
}
use native.Mathlib.Nat.{le_refl}
use distsync.Lease.Core.{Error, is_error, Trip}
use distsync.Lease.Interface.{Methods, MethodLaws}
use distsync.Handle.{
  Handle, new_handle, mark_lost, stop, check_deadline, checked, with_lease_deadline, noted, renew,
  watch, check_held, finished, release,
}
use distsync.Handle.Lifecycle.{Event, renews, watches, releases, fires, happen, live_through}

-- A handle that is not lost has its timer set, to the lease's deadline or before.
pub IsWatched : {Db L : Type 0} → Methods Db L → Handle L → Type 0
IsWatched {L} methods h =
    (h.is_lost ≡ true) ⊎ ((t : ℕ) × (h.deadline_timer ≡ some t) × (t ≤ methods.expires_at h.leas))

module _ {Db L : Type 0} (methods : Methods Db L) (laws : MethodLaws methods) where
  open methods use {expires_at}

  check_deadline-IsWatched :
      (h : Handle L) (now : ℕ) → IsWatched methods (check_deadline methods h now)
  unfolding check_deadline IsWatched
  check_deadline-IsWatched h now = elim (Bool-cases h.is_lost) [
    | inl l ↦ inl (ground (arith, l))
    | inr l ↦ elim (Bool-cases (leb (expires_at h.leas) now)) [
      | inl e ↦ inl (ground (arith, l, e))
      | inr e ↦ inr (expires_at h.leas, ground (arith, l, e), ground (arith, l, e))
    ]
  ]

  -- A step that loses the handle, or leaves its timer alone and the deadline no earlier.
  IsKept : Handle L → Handle L → Type 0
  IsKept h h' =
      (h'.is_lost ≡ true)
      ⊎ ((h'.is_lost ≡ h.is_lost)
          × (h'.deadline_timer ≡ h.deadline_timer)
          × (expires_at h.leas ≤ expires_at h'.leas))

  IsKept-IsWatched : (h h' : Handle L) → IsKept h h' → IsWatched methods h → IsWatched methods h'
  unfolding IsWatched IsKept
  IsKept-IsWatched h h' (inl l) w = inl l
  IsKept-IsWatched h h' (inr (l, t, e)) (inl l') = inl (l ∙ l')
  IsKept-IsWatched h h' (inr (l, t, e)) (inr (u, q, b)) = inr (u, t ∙ q, omega (arith, e, b))

  with_lease_deadline-IsKept :
      (h : Handle L) (now : ℕ) (cut : Bool) (back : ℕ) (call : L → Db → Db × L × Error) (db : Db)
      → (expires_at h.leas ≤ expires_at (call h.leas db).1)
      → IsKept h (with_lease_deadline methods h now cut back call db).1
  unfolding with_lease_deadline checked mark_lost IsKept
  with_lease_deadline-IsKept h now cut back call db e = ground arith

  renew-IsKept :
      (h : Handle L) (now : ℕ) (cut : Bool) (trip : Trip) (db : Db)
      → IsKept h (renew methods h now cut trip db).1
  unfolding renew noted mark_lost IsKept
  renew-IsKept h now cut trip db =
      let kept =
        with_lease_deadline-IsKept h now cut trip.back (λ l d. methods.renew l trip d) db
          (laws.renew-later h.leas trip db) in
      ground (arith, kept)

  check_held-same : (l : L) (trip : Trip) (db : Db) → (check_held methods trip l db).1 ≡ l
  unfolding check_held
  check_held-same l trip db = ground arith

  release-IsKept : (h : Handle L) (trip : Trip) (db : Db) → IsKept h (release methods h trip db).1
  unfolding release finished stop mark_lost IsKept
  release-IsKept h trip db = elim (Bool-cases h.release_done) [
    | inl e ↦ rw e (inr (refl, refl, le_refl _))
    | inr e ↦ rw e (inl refl)
  ]

  happen-IsWatched :
      (db : Db) (h : Handle L) (e : Event)
      → IsWatched methods h
      → IsWatched methods (happen methods (db, h) e).1
  unfolding happen watch release finished stop mark_lost
  happen-IsWatched db h (renews now cut trip) w =
      IsKept-IsWatched h _ (renew-IsKept h now cut trip db) w
  happen-IsWatched db h (watches now cut trip) w =
      IsKept-IsWatched h _
        (with_lease_deadline-IsKept h now cut trip.back (check_held methods trip) db
          (rw (check_held-same h.leas trip db) (le_refl _)))
        w
  happen-IsWatched db h (releases trip) w = IsKept-IsWatched h _ (release-IsKept h trip db) w
  happen-IsWatched db h (fires now) w = check_deadline-IsWatched h now

  live_through-IsWatched :
      (db : Db) (h : Handle L) (es : List Event)
      → IsWatched methods h
      → IsWatched methods (live_through methods (db, h) es).1
  unfolding live_through
  live_through-IsWatched db h [] w = w
  live_through-IsWatched db h (e ∷ es) w =
      let s = happen methods (db, h) e in
      live_through-IsWatched s.0 s.1 es (happen-IsWatched db h e w)

  -- From the start of its background work on, whatever happens: a handle is lost to its holder, or
  -- its timer is set to the lease's deadline at the latest.
  pub never_behind :
      (l : L) (start : ℕ) (db : Db) (es : List Event)
      → IsWatched methods
          (live_through methods (db, check_deadline methods (new_handle l) start) es).1
  never_behind l start db es =
      live_through-IsWatched db (check_deadline methods (new_handle l) start) es
        (check_deadline-IsWatched (new_handle l) start)

  -- A renewal that returns nil was made by a handle that is still live, and the lease is valid
  -- when its reply is read.
  pub renew_success :
      (h : Handle L) (now : ℕ) (cut : Bool) (trip : Trip) (db : Db)
      → (renew methods h now cut trip db).2 ≡ []
      → ((renew methods h now cut trip db).1.is_lost ≡ false)
        × (now < expires_at h.leas)
        × (trip.back < expires_at (renew methods h now cut trip db).1.leas)
  unfolding renew with_lease_deadline checked noted mark_lost is_error
  renew_success h now cut trip db e = (ground arith, ground arith, ground arith)
