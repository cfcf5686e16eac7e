-- ===== src/Config.antt =====
-- dist.go, options.go and internal/redis/key.go: what a client and its options make of a
-- configuration, and the keys of a resource. A duration that is zero or negative is 0, since the
-- code only tests for both at once. Metrics and tracers are left out.
pub mod Resolved
pub mod Delay
pub mod HashTags
mod Examples
use distsync.Common.{
  ℕ, ◌*◌, Bool, true, false, List, [], ◌∷◌, ◌++◌, ◌&&◌, Text, ◌==◌, if◌then◌else◌, ◌||◌,
}
use distsync.Redis.{millisecond}

pub record RetryPolicy : Type 0 where
  pub base : ℕ
  pub max : ℕ

pub record Config : Type 0 where
  pub ttl : ℕ
  pub auto_renew : Bool
  pub retry : RetryPolicy
  pub fencing : Bool
  pub watchdog : Bool

-- Lease, AutoRenew, NoAutoRenew, Watchdog, Fencing, Retry
pub data Setting : Type 0 where
  lease : ℕ → Setting
  auto_renews no_auto_renew watches fences : Setting
  retries : (base max : ℕ) → Setting

-- What an Option does to a configuration.
unfoldable pub apply : Setting → Config → Config
apply (lease d) c = record c { ttl = d }
apply auto_renews c = record c { auto_renew = true }
apply no_auto_renew c = record c { auto_renew = false }
apply watches c = record c { watchdog = true }
apply fences c = record c { fencing = true }
apply (retries base max) c = record c { retry = record { base = base; max = max } }

-- WithDefaultLease, WithAutoRenew, WithRetry
pub data ClientSetting : Type 0 where
  default_lease : ℕ → ClientSetting
  default_auto_renew : Bool → ClientSetting
  default_retry : (base max : ℕ) → ClientSetting

unfoldable pub apply_default : ClientSetting → Config → Config
apply_default (default_lease d) c = record c { ttl = d }
apply_default (default_auto_renew enabled) c = record c { auto_renew = enabled }
apply_default (default_retry base max) c = record c { retry = record { base = base; max = max } }

unfoldable pub apply_all : {A : Type 0} → (A → Config → Config) → List A → Config → Config
apply_all f [] c = c
apply_all f (o ∷ os) c = apply_all f os (f o c)

-- The defaults of `New`, and what its options make of them.
unfoldable pub new_client : List ClientSetting → Config
new_client opts = apply_all apply_default opts (record {
  ttl = 10_000 * millisecond;
  auto_renew = true;
  retry = record { base = 50 * millisecond; max = 2_000 * millisecond };
  fencing = false;
  watchdog = false;
})

-- Client.resolved
unfoldable pub resolved : Config → List Setting → Config
resolved defaults opts =
    let c = apply_all apply opts defaults in
    if c.ttl == 0 then record c { ttl = defaults.ttl } else c

unfoldable pub contains : Text → ℕ → Bool
contains [] c = false
contains (d ∷ s) c = (d == c) || contains s c

-- Key
unfoldable pub key : Text → Text
key name = if contains name b'{' && contains name b'}' then name else b'{' ∷ name ++ b'}' ∷ []

-- Derived
unfoldable pub derived : Text → Text → Text
derived primary suffix = primary ++ b':' ∷ suffix
