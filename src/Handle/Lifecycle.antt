-- ===== src/Handle/Lifecycle.antt =====
-- What a guard promises over its life, for any lease that satisfies the laws of the interface.
use distsync.Common.{ℕ, ◌≡◌, Bool, true, List, [], ◌∷◌, arith}
use distsync.Lease.Core.{lost, Trip}
use distsync.Lease.Interface.{Methods}
use distsync.Handle.{
  Handle, mark_lost, stop, check_deadline, with_lease_deadline, renew, watch, finished, release,
}

-- What may happen to a handle, each with its times and calls.
pub data Event : Type 0 where
  renews : (now : ℕ) (cut : Bool) (trip : Trip) → Event
  watches : (now : ℕ) (cut : Bool) (trip : Trip) → Event
  releases : Trip → Event
  fires : (now : ℕ) → Event  -- the deadline's timer

module _ {Db L : Type 0} (methods : Methods Db L) where
  unfoldable pub happen : Db × Handle L → Event → Db × Handle L
  happen (db, h) (renews now cut trip) =
      let (db', h', e) = renew methods h now cut trip db in (db', h')
  happen (db, h) (watches now cut trip) =
      let (db', h', e) = watch methods h now cut trip db in (db', h')
  happen (db, h) (releases trip) = let (db', h', e) = release methods h trip db in (db', h')
  happen (db, h) (fires now) = (db, check_deadline methods h now)

  unfoldable pub live_through : Db × Handle L → List Event → Db × Handle L
  unfolding happen
  live_through s [] = s
  live_through s (e ∷ es) = live_through (happen s e) es

  renew-refused :
      (h : Handle L) (now : ℕ) (cut : Bool) (trip : Trip) (db : Db)
      → h.is_lost ≡ true
      → renew methods h now cut trip db ≡ (db, h, lost ∷ [])
  unfolding renew
  renew-refused h now cut trip db e = ground arith

  watch-refused :
      (h : Handle L) (now : ℕ) (cut : Bool) (trip : Trip) (db : Db)
      → h.is_lost ≡ true
      → watch methods h now cut trip db ≡ (db, h, lost ∷ [])
  unfolding watch with_lease_deadline
  watch-refused h now cut trip db e = ground arith

  happen-lost :
      (db : Db) (h : Handle L) (e : Event) → h.is_lost ≡ true → (happen (db, h) e).1.is_lost ≡ true
  unfolding happen release check_deadline stop mark_lost finished
  happen-lost db h (renews now cut trip) l = rw (renew-refused h now cut trip db l) l
  happen-lost db h (watches now cut trip) l = rw (watch-refused h now cut trip db l) l
  happen-lost db h (releases trip) l = ground arith
  happen-lost db h (fires now) l = ground arith

  live_through-lost :
      (s : Db × Handle L) (es : List Event)
      → s.1.is_lost ≡ true
      → (live_through s es).1.is_lost ≡ true
  unfolding live_through
  live_through-lost s [] l = l
  live_through-lost (db, h) (e ∷ es) l =
      live_through-lost (happen (db, h) e) es (happen-lost db h e l)

  -- A loss is final: whatever happens to a lost handle, it stays lost, and a renewal or a check of
  -- it makes no call, changes nothing and returns ErrLost.
  pub loss_is_final :
      (db : Db) (h : Handle L) (es : List Event) (now : ℕ) (cut : Bool) (trip : Trip)
      → h.is_lost ≡ true
      → let s = live_through (db, h) es in
        (s.1.is_lost ≡ true)
        × (renew methods s.1 now cut trip s.0 ≡ (s.0, s.1, lost ∷ []))
        × (watch methods s.1 now cut trip s.0 ≡ (s.0, s.1, lost ∷ []))
  loss_is_final db h es now cut trip l =
      let s = live_through (db, h) es in
      let l' = live_through-lost (db, h) es l in
      (l', renew-refused s.1 now cut trip s.0 l', watch-refused s.1 now cut trip s.0 l')
