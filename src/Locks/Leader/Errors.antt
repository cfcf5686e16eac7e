-- ===== src/Locks/Leader/Errors.antt =====
-- What runHeld reports.
use distsync.Common.{
  ℕ, ◌≡◌, refl, Bool, true, false, not, [], ◌∷◌, ◌++◌, ◌||◌, ◌&&◌, if◌then◌else◌, arith,
}
use distsync.Redis.{Strings}
use distsync.Lease.Core.{Error, Sentinel, leadership_lost, is_error, Trip}
use distsync.Lease.SingleOwner.{SingleOwner}
use distsync.Handle.{is_nil}
use distsync.Locks.Leader.{Leader, Callback, led, handed_over, run_held}

is_nil-++ : (a b : Error) → is_nil (a ++ b) ≡ (is_nil a && is_nil b)
is_nil-++ [] b = refl
is_nil-++ (e ∷ a) b = refl

is_error-++ : (a b : Error) (s : Sentinel) → is_error (a ++ b) s ≡ (is_error a s || is_error b s)
unfolding is_error
is_error-++ [] b s = refl
is_error-++ (e ∷ a) b s = ground (arith, is_error-++ a b s)

-- The error that a lost handle adds to, joined with the release's.
module _ (a : Error) (b : Error) (s : Sentinel) where
  joined : Bool → Error
  joined lost = (if lost then a ++ leadership_lost ∷ [] else a) ++ b

  is_error-joined :
      (lost : Bool)
      → is_error (joined lost) s
        ≡ (is_error a s || (lost && is_error (leadership_lost ∷ []) s) || is_error b s)
  unfolding joined
  is_error-joined true =
      ground
        (arith, is_error-++ (a ++ leadership_lost ∷ []) b s, is_error-++ a (leadership_lost ∷ []) s)
  is_error-joined false = ground (arith, is_error-++ a b s)

  is_nil-joined : (lost : Bool) → is_nil (joined lost) ≡ (is_nil a && not lost && is_nil b)
  unfolding joined
  is_nil-joined true =
      ground (arith, is_nil-++ (a ++ leadership_lost ∷ []) b, is_nil-++ a (leadership_lost ∷ []))
  is_nil-joined false = ground (arith, is_nil-++ a b)

module _ {Db : Type 0} (redis : Strings Db) where
  -- What a leadership returns, by errors.Is: the callback's error, ErrLeadershipLost if the handle
  -- was lost when the callback returned, and the error of the release; nil only if none of the
  -- three is there.
  pub run_held-errors :
      (l : Leader) (le : SingleOwner) (now : ℕ) (fn : Callback) (cleanup : Trip) (db : Db)
      (s : Sentinel)
      → let at_end = led redis l le now fn db in
        let error = (run_held redis l le now fn cleanup db).1 in
        let left = (handed_over redis at_end cleanup).2 in
        (is_error error s ≡ (
          is_error fn.error s
          || (at_end.1.is_lost && is_error (leadership_lost ∷ []) s)
          || is_error left s))
        × (is_nil error ≡ (is_nil fn.error && not at_end.1.is_lost && is_nil left))
  unfolding run_held joined
  run_held-errors l le now fn cleanup db s =
      let at_end = led redis l le now fn db in
      let left = (handed_over redis at_end cleanup).2 in
      (
        is_error-joined fn.error left s at_end.1.is_lost,
        is_nil-joined fn.error left s at_end.1.is_lost,
      )
