-- ===== src/Renewer/Examples.antt =====
-- Runs of a renewer.
use distsync.Common.{◌≤◌, ◌≡◌, refl, false, some, List, [], ◌∷◌, if◌then◌else◌}
use distsync.Lease.Core.{lost, transport, is_error}
use distsync.Renewer.{Renewer, new_renewer, start, stop, exit, is_done, Wake, tick, loop}
use distsync.Renewer.Lifecycle.{starts, stops, exits, Reach, new, next, closed_once}

abbrev ended : Renewer
ended = exit (stop (start new_renewer))

ended-Reach : Reach ended
unfolding new_renewer start stop
ended-Reach = next (next (next new starts) stops) (exits refl)

closed_once_example :
    (ended.closings ≤ 1) × (is_done ended ≡ (if ended.running then false else ended.started))
closed_once_example = closed_once ended-Reach

-- A transport error is tried again; then the lease is lost.
abbrev wakes : List Wake
wakes = tick false (transport ∷ []) false ∷ tick false (lost ∷ []) false ∷ []

two_renewals : loop wakes ≡ some (2, 1)
unfolding loop is_error
two_renewals = refl
