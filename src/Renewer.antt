-- ===== src/Renewer.antt =====
-- internal/lease/renewer.go: the goroutine that renews a lease, as the steps of starting it, of
-- stopping it and of its exit, and the loop that it runs as a function of what wakes it.
pub mod Lifecycle
pub mod Notices
mod Examples
use distsync.Common.{
  ℕ, ◌+◌, Bool, true, false, Option, none, some, List, [], ◌∷◌, if◌then◌else◌, ltb,
}
use distsync.Lease.Core.{Error, lost, is_error}
use distsync.Handle.{is_nil}

pub record Renewer : Type 0 where
  pub canceled : Bool
  pub started : Bool  -- startOnce was used
  pub running : Bool  -- the goroutine is there
  pub closings : ℕ  -- how often `done` was closed

-- NewRenewer
unfoldable pub new_renewer : Renewer
new_renewer = record { canceled = false; started = false; running = false; closings = 0 }

-- Start
unfoldable pub start : Renewer → Renewer
start r = if r.started then r else record r { started = true; running = true }

-- Stop, up to where it waits for `done`
unfoldable pub stop : Renewer → Renewer
stop r =
    if r.started
    then record r { canceled = true }
    else record r { canceled = true; started = true; closings = r.closings + 1 }

-- The goroutine's return, with its deferred `close(r.done)`
unfoldable pub exit : Renewer → Renewer
exit r = record r { running = false; closings = r.closings + 1 }

-- `<-r.done` does not block
abbrev pub is_done : Renewer → Bool
is_done r = ltb 0 r.closings

-- What a turn of the loop meets: the context, or a tick with whether the context was over before the
-- call, what the call returned, and whether the context was over after it.
pub data Wake : Type 0 where
  context_over : Wake
  tick : (before : Bool) (answer : Error) (after : Bool) → Wake

abbrev pub one_more : Option (ℕ × ℕ) → Option (ℕ × ℕ)
one_more none = none
one_more (some (renewals, notices)) = some (renewals + 1, notices)

-- loop: how often it called `renew` and `onLost` when it returns; `none` while it runs
unfoldable pub loop : List Wake → Option (ℕ × ℕ)
loop [] = none
loop (context_over ∷ ws) = some (0, 0)
loop (tick before answer after ∷ ws) =
    let rest = loop ws in
    if before
    then some (0, 0)
    else if after
    then some (1, 0)
    else if is_nil answer
    then one_more rest
    else if is_error answer lost
    then some (1, 1)
    else one_more rest
