-- ===== src/Locks/Loop.antt =====
-- The loop `for attempt := 0; ; attempt++` that mutex.go, semaphore.go, rwmutex.go and leader.go each
-- write out: try, return what is not ErrBusy, and wait for the delay or the context. Errors that are
-- wrapped by `%w` keep their sentinels.
pub mod Waiting
pub mod Leaving
use distsync.Common.{Bool, true, false, not, Option, none, some, List, [], ◌∷◌, if◌then◌else◌}
use distsync.Lease.Core.{Error, busy, canceled, is_error}
use distsync.Handle.{is_nil}

-- One turn: what its attempt meets, whether the context was over after it, and whether `select` then
-- took the timer (or the context).
pub record Round (E : Type 0) : Type 0 where
  pub env : E
  pub over : Bool
  pub woken : Bool

-- `none` when the rounds end before the loop does.
unfoldable pub acquire_loop :
    {S E A : Type 0} → (S → E → S × A × Error) → S → List (Round E) → Option (S × A × Error)
acquire_loop try s [] = none
acquire_loop try s (r ∷ rs) =
    let (s', a, e) = try s r.env in
    let rest = acquire_loop try s' rs in
    if is_nil e
    then some (s', a, e)
    else if not (is_error e busy)
    then some (s', a, e)
    else if r.over
    then some (s', a, canceled ∷ [])
    else if r.woken
    then rest
    else some (s', a, canceled ∷ [])

-- The loop of rwmutex.go, where a contender that gives up leaves the queue.
unfoldable pub queue_loop :
    {S E A : Type 0}
    → (S → E → S × A × Error)
    → (S → E → S)
    → S
    → List (Round E)
    → Option (S × A × Error)
queue_loop try leave s [] = none
queue_loop try leave s (r ∷ rs) =
    let (s', a, e) = try s r.env in
    let rest = queue_loop try leave s' rs in
    if is_nil e
    then some (s', a, e)
    else if not (is_error e busy)
    then some (s', a, e)
    else if r.over
    then some (leave s' r.env, a, canceled ∷ [])
    else if r.woken
    then rest
    else some (leave s' r.env, a, canceled ∷ [])
