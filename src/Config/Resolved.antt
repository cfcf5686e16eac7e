-- ===== src/Config/Resolved.antt =====
-- What a resolved configuration and a key are sure of.
use distsync.Common.{
  ℕ, ◌<◌, ◌≡◌, refl, true, List, [], ◌∷◌, ◌++◌, ◌&&◌, ◌||◌, Text, ◌==◌, if◌then◌else◌, arith,
}
use distsync.Config.{Config, Setting, lease, apply, apply_all, resolved, contains, key, derived}

apply_all-last :
    (opts : List Setting) (o : Setting) (c : Config)
    → apply_all apply (opts ++ o ∷ []) c ≡ apply o (apply_all apply opts c)
unfolding apply_all
apply_all-last [] o c = refl
apply_all-last (p ∷ opts) o c = apply_all-last opts o (apply p c)

-- Whatever options a primitive is given, its timeout is positive if the client's is; and an option
-- for a timeout that comes last decides: the client's if it is 0, and itself otherwise.
pub resolved-ttl :
    (defaults : Config) (opts : List Setting) (d : ℕ)
    → 0 < defaults.ttl
    → (0 < (resolved defaults opts).ttl)
      × ((resolved defaults (opts ++ lease d ∷ [])).ttl ≡ (if d == 0 then defaults.ttl else d))
unfolding resolved apply
resolved-ttl defaults opts d h =
    (ground arith, ground (arith, apply_all-last opts (lease d) defaults))

contains-++ : (s t : Text) (c : ℕ) → contains (s ++ t) c ≡ (contains s c || contains t c)
unfolding contains
contains-++ [] t c = refl
contains-++ (d ∷ s) t c = ground (arith, contains-++ s t c)

-- A key has both braces.
key-braces : (name : Text) → (contains (key name) b'{' && contains (key name) b'}') ≡ true
unfolding key contains
key-braces name = ground (arith, contains-++ name (b'}' ∷ []) b'}')

key-fixed : (s : Text) → (contains s b'{' && contains s b'}') ≡ true → key s ≡ s
unfolding key
key-fixed s h = ground (arith, h)

-- Key changes nothing that is a key already, and neither does it change a derived key.
pub key-again :
    (name suffix : Text)
    → (key (key name) ≡ key name) × (key (derived (key name) suffix) ≡ derived (key name) suffix)
unfolding derived
key-again name suffix = (
  key-fixed (key name) (key-braces name),
  key-fixed (key name ++ b':' ∷ suffix) (
      ground (
        arith,
        key-braces name,
        contains-++ (key name) (b':' ∷ suffix) b'{',
        contains-++ (key name) (b':' ∷ suffix) b'}',
      )),
)
