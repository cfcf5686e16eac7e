-- ===== src/Handle/Release.antt =====
-- Releasing a handle: once answered it is done for good, and until then it can be tried again.
use distsync.Common.{◌≡◌, true, false, List, [], ◌∷◌, ◌||◌, arith}
use distsync.Lease.Core.{lost, is_error, Trip}
use distsync.Lease.Interface.{Methods}
use distsync.Handle.{
  Handle, mark_lost, stop, is_nil, check_deadline, checked, with_lease_deadline, noted, renew,
  watch, finished, release,
}
use distsync.Handle.Lifecycle.{Event, renews, watches, releases, fires, happen, live_through}

module _ {Db L : Type 0} (methods : Methods Db L) where
  happen-done :
      (db : Db) (h : Handle L) (e : Event)
      → h.release_done ≡ true
      → (happen methods (db, h) e).1.release_done ≡ true
  unfolding happen renew watch with_lease_deadline checked noted release check_deadline mark_lost
  happen-done db h (renews now cut trip) d = ground arith
  happen-done db h (watches now cut trip) d = ground arith
  happen-done db h (releases trip) d = ground arith
  happen-done db h (fires now) d = ground arith

  live_through-done :
      (db : Db) (h : Handle L) (es : List Event)
      → h.release_done ≡ true
      → (live_through methods (db, h) es).1.release_done ≡ true
  unfolding live_through
  live_through-done db h [] d = d
  live_through-done db h (e ∷ es) d =
      let s = happen methods (db, h) e in live_through-done s.0 s.1 es (happen-done db h e d)

  pub release-done :
      (h : Handle L) (trip : Trip) (db : Db)
      → (is_nil (release methods h trip db).2 || is_error (release methods h trip db).2 lost) ≡ true
      → (release methods h trip db).1.release_done ≡ true
  unfolding release finished
  release-done h trip db e = ground arith

  pub release-finished :
      (h : Handle L) (trip : Trip) (db : Db)
      → h.release_done ≡ true
      → release methods h trip db ≡ (db, h, [])
  unfolding release
  release-finished h trip db d = ground arith

  -- A release that returned nil or ErrLost is done: whatever happens then, another release makes no
  -- call, changes nothing and returns nil.
  pub release_once :
      (h : Handle L) (trip : Trip) (db : Db) (es : List Event) (again : Trip)
      → (is_nil (release methods h trip db).2 || is_error (release methods h trip db).2 lost) ≡ true
      → let s =
          live_through methods ((release methods h trip db).0, (release methods h trip db).1) es in
        release methods s.1 again s.0 ≡ (s.0, s.1, [])
  release_once h trip db es again e =
      release-finished _ again _ (live_through-done _ _ es (release-done h trip db e))

  -- Any other error leaves the handle lost to its holder but not done: another release sends the
  -- lease's release again, with what the first one left.
  pub release_retries :
      (h : Handle L) (trip : Trip) (db : Db) (again : Trip)
      → (is_nil (release methods h trip db).2 || is_error (release methods h trip db).2 lost)
        ≡ false
      → let r = release methods h trip db in
        (r.1.is_lost ≡ true)
        × (r.1.released ≡ true)
        × ((release methods r.1 again r.0).0 ≡ (methods.release r.1.leas again r.0).0)
        × ((release methods r.1 again r.0).2 ≡ (methods.release r.1.leas again r.0).2)
  unfolding release finished stop mark_lost
  release_retries h trip db again e = (ground arith, ground arith, ground arith, ground arith)
