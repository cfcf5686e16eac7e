-- ===== src/Metrics/Bounded.antt =====
-- How many resource labels the collectors have.
use distsync.Common.{◌≡◌, refl, Bool, true, List, [], ◌∷◌, Text, All, arith}
use distsync.Metrics.{
  Labels, Prometheus, other, listed, new_with_resources, resource_label, observe_acquire,
  observe_release, observe_renew, observe_stop,
}

-- What a client reports, in any order.
pub data Event : Type 0 where
  acquires renews : (primitive resource : Text) (ok : Bool) → Event
  releases : (primitive resource : Text) → Event
  stops : (primitive resource reason : Text) → Event

unfoldable pub observe : Prometheus → Event → Prometheus
observe p (acquires primitive resource ok) = observe_acquire p primitive resource ok
observe p (renews primitive resource ok) = observe_renew p primitive resource ok
observe p (releases primitive resource) = observe_release p primitive resource
observe p (stops primitive resource reason) = observe_stop p primitive resource reason

unfoldable pub observe_all : Prometheus → List Event → Prometheus
observe_all p [] = p
observe_all p (e ∷ es) = observe_all (observe p e) es

-- Every resource label is a listed name or "other".
abbrev pub AllListed : List Text → List Labels → Type 0
AllListed names calls = All (λ c. listed (other ∷ names) c.resource ≡ true) calls

pub record IsBounded (names : List Text) (p : Prometheus) : Type 0 where
  pub kept : p.resources ≡ names
  pub acquires : AllListed names p.acquires
  pub acquire_wait : AllListed names p.acquire_wait
  pub releases : AllListed names p.releases
  pub renews : AllListed names p.renews
  pub renew_stopped : AllListed names p.renew_stopped

label-listed :
    (names : List Text) (p : Prometheus) (resource : Text)
    → p.resources ≡ names
    → listed (other ∷ names) (resource_label p resource) ≡ true
unfolding resource_label listed
label-listed names p resource e = ground (arith, e)

observe-IsBounded :
    (names : List Text) (p : Prometheus) (e : Event)
    → IsBounded names p
    → IsBounded names (observe p e)
unfolding observe observe_acquire observe_release observe_renew observe_stop
observe-IsBounded names p (acquires primitive resource ok) h = record {
  kept = h.kept;
  acquires = (label-listed names p resource h.kept, h.acquires);
  acquire_wait = (label-listed names p resource h.kept, h.acquire_wait);
  releases = h.releases;
  renews = h.renews;
  renew_stopped = h.renew_stopped;
}
observe-IsBounded names p (renews primitive resource ok) h = record {
  kept = h.kept;
  acquires = h.acquires;
  acquire_wait = h.acquire_wait;
  releases = h.releases;
  renews = (label-listed names p resource h.kept, h.renews);
  renew_stopped = h.renew_stopped;
}
observe-IsBounded names p (releases primitive resource) h = record {
  kept = h.kept;
  acquires = h.acquires;
  acquire_wait = h.acquire_wait;
  releases = (label-listed names p resource h.kept, h.releases);
  renews = h.renews;
  renew_stopped = h.renew_stopped;
}
observe-IsBounded names p (stops primitive resource reason) h = record {
  kept = h.kept;
  acquires = h.acquires;
  acquire_wait = h.acquire_wait;
  releases = h.releases;
  renews = h.renews;
  renew_stopped = (label-listed names p resource h.kept, h.renew_stopped);
}

observe_all_from-IsBounded :
    (names : List Text) (p : Prometheus) (es : List Event)
    → IsBounded names p
    → IsBounded names (observe_all p es)
unfolding observe_all
observe_all_from-IsBounded names p [] h = h
observe_all_from-IsBounded names p (e ∷ es) h =
    observe_all_from-IsBounded names (observe p e) es (observe-IsBounded names p e h)

-- Whatever a client reports, with whatever resource names, every resource label of every collector is
-- one of the names that were listed at the construction, or "other".
pub observe_all-IsBounded :
    (names : List Text) (es : List Event)
    → IsBounded names (observe_all (new_with_resources names) es)
unfolding new_with_resources
observe_all-IsBounded names es =
    observe_all_from-IsBounded names (new_with_resources names) es (record {
      kept = refl;
      acquires = tt;
      acquire_wait = tt;
      releases = tt;
      renews = tt;
      renew_stopped = tt;
    })
