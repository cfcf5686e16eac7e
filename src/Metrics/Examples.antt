-- ===== src/Metrics/Examples.antt =====
-- A run of the sink, and the theorem at it.
use distsync.Common.{true, false, List, [], ◌∷◌, Text}
use distsync.Metrics.{new_with_resources}
use distsync.Metrics.Bounded.{
  Event, acquires, releases, observe_all, IsBounded, observe_all-IsBounded,
}

abbrev listed_name : Text
listed_name = b'a' ∷ []

abbrev secret : Text
secret = b'b' ∷ []

abbrev events : List Event
events =
    acquires (b'm' ∷ []) listed_name true
    ∷ acquires (b'm' ∷ []) secret false
    ∷ releases (b'm' ∷ []) secret
    ∷ []

observe_all-IsBounded_example :
    IsBounded (listed_name ∷ []) (observe_all (new_with_resources (listed_name ∷ [])) events)
observe_all-IsBounded_example = observe_all-IsBounded (listed_name ∷ []) events
