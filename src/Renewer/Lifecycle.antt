-- ===== src/Renewer/Lifecycle.antt =====
-- Starting and stopping in any order: `done` is closed once, and Stop can always return.
use distsync.Common.{◌≤◌, ◌≡◌, ◌⊎◌, inr, refl, true, false, if◌then◌else◌, arith}
use distsync.Renewer.{Renewer, new_renewer, start, stop, exit, is_done}

pub data Step (r : Renewer) : Renewer → Type 0 where
  starts : Step r (start r)
  stops : Step r (stop r)
  exits : r.running ≡ true → Step r (exit r)

pub data Reach : Renewer → Type 0 where
  new : Reach new_renewer
  next : {r r' : Renewer} → Reach r → Step r r' → Reach r'

-- `done` was closed as often as the goroutine's life is over, and startOnce guards both.
IsSound : Renewer → Type 0
IsSound r =
    ((r.running ≡ true) × (r.started ≡ true) × (r.closings ≡ 0))
    ⊎ ((r.running ≡ false) × (r.started ≡ true) × (r.closings ≡ 1))
    ⊎ ((r.running ≡ false) × (r.started ≡ false) × (r.closings ≡ 0))

Step-IsSound : {r r' : Renewer} → IsSound r → Step r r' → IsSound r'
unfolding IsSound start stop exit
Step-IsSound {r} i starts = ground (arith, i)
Step-IsSound {r} i stops = ground (arith, i)
Step-IsSound {r} i (exits e) = ground (arith, i, e)

Reach-IsSound : {r : Renewer} → Reach r → IsSound r
unfolding IsSound new_renewer
Reach-IsSound new = inr (inr (refl, refl, refl))
Reach-IsSound (next p s) = Step-IsSound (Reach-IsSound p) s

-- However Start, Stop and the goroutine's exit interleave, `done` is never closed twice (which would
-- panic), and it is closed as soon as the renewer was used and no goroutine is left.
pub closed_once :
    {r : Renewer}
    → Reach r
    → (r.closings ≤ 1) × (is_done r ≡ (if r.running then false else r.started))
unfolding IsSound
closed_once {r} p = let i = Reach-IsSound p in (ground (arith, i), ground (arith, i))

-- After Stop has canceled the context, `done` is closed, or the goroutine is there and its exit
-- closes it; and a later Start brings no goroutine.
pub stop_returns :
    {r : Renewer}
    → Reach r
    → ((is_done (stop r) ≡ true) ⊎ (((stop r).running ≡ true) × (is_done (exit (stop r)) ≡ true)))
      × (start (stop r) ≡ stop r)
unfolding IsSound stop exit start
stop_returns {r} p = let i = Reach-IsSound p in (ground (arith, i), ground (arith, i))
