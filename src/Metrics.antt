-- ===== src/Metrics.antt =====
-- metrics/prometheus.go. The collectors are of a package that is not in the repository: each is the
-- list of the label values with which it was called, the last call first. Values and waits are left
-- out.
pub mod Bounded
mod Examples
use distsync.Common.{
  ℕ, Bool, true, false, List, [], ◌∷◌, ite, Text, Text_discrete, if◌then◌else◌, ◌||◌,
}

-- One call of a collector: its labels primitive, resource, and result or reason where it has one.
pub record Labels : Type 0 where
  pub primitive : Text
  pub resource : Text
  pub more : List Text

pub record Prometheus : Type 0 where
  pub resources : List Text
  pub acquires : List Labels
  pub acquire_wait : List Labels
  pub releases : List Labels
  pub renews : List Labels
  pub renew_stopped : List Labels

abbrev pub other : Text
other = b'o' ∷ b't' ∷ b'h' ∷ b'e' ∷ b'r' ∷ []

abbrev pub success : Text
success = b's' ∷ b'u' ∷ b'c' ∷ b'c' ∷ b'e' ∷ b's' ∷ b's' ∷ []

abbrev pub failure : Text
failure = b'f' ∷ b'a' ∷ b'i' ∷ b'l' ∷ b'u' ∷ b'r' ∷ b'e' ∷ []

-- NewWithResources; New passes no resources
unfoldable pub new_with_resources : List Text → Prometheus
new_with_resources resources = record {
  resources = resources;
  acquires = [];
  acquire_wait = [];
  releases = [];
  renews = [];
  renew_stopped = [];
}

-- `_, ok := p.resources[resource]`
unfoldable pub listed : List Text → Text → Bool
listed [] resource = false
listed (r ∷ rs) resource = ite (Text_discrete r resource) true (listed rs resource)

-- resourceLabel
unfoldable pub resource_label : Prometheus → Text → Text
unfolding listed
resource_label p resource = if listed p.resources resource then resource else other

abbrev pub result_of : Bool → Text
result_of ok = if ok then success else failure

-- Acquire
unfoldable pub observe_acquire : Prometheus → Text → Text → Bool → Prometheus
unfolding resource_label
observe_acquire p primitive resource ok =
    let r = resource_label p resource in
    record p {
      acquires =
          record { primitive = primitive; resource = r; more = result_of ok ∷ [] } ∷ p.acquires;
      acquire_wait = record { primitive = primitive; resource = r; more = [] } ∷ p.acquire_wait;
    }

-- Release
unfoldable pub observe_release : Prometheus → Text → Text → Prometheus
unfolding resource_label
observe_release p primitive resource = record p {
  releases =
      record { primitive = primitive; resource = resource_label p resource; more = [] }
      ∷ p.releases;
}

-- Renew
unfoldable pub observe_renew : Prometheus → Text → Text → Bool → Prometheus
unfolding resource_label
observe_renew p primitive resource ok = record p {
  renews =
      record {
        primitive = primitive;
        resource = resource_label p resource;
        more = result_of ok ∷ [];
      }
      ∷ p.renews;
}

-- RenewalStopped
unfoldable pub observe_stop : Prometheus → Text → Text → Text → Prometheus
unfolding resource_label
observe_stop p primitive resource reason = record p {
  renew_stopped =
      record { primitive = primitive; resource = resource_label p resource; more = reason ∷ [] }
      ∷ p.renew_stopped;
}
