-- ===== src/Locks/Slots.antt =====
-- The keys of the locks in a cluster: the constructors of mutex.go, leader.go and rwmutex.go.
mod Examples
use distsync.Common.{ℕ, ◌≡◌, refl, false, List, [], ◌∷◌, Text, ◌==◌, All}
use distsync.Config.{Config, Setting, key, contains}
use distsync.Config.HashTags.{SlotLaws, slot-derived}
use distsync.Locks.Mutex.{new_mutex}
use distsync.Locks.Leader.{new_leader}
use distsync.Locks.RwMutex.{new_rw_mutex}

module _ (slot : Text → ℕ) (laws : SlotLaws slot) where
  -- All keys of a mutex, of a leader and of a read-write lock are in one slot, that of the key of
  -- their name, if the name is not empty, has no opening brace and does not begin with a closing
  -- one.
  pub one_slot :
      (defaults : Config) (opts : List Setting) (c : ℕ) (name : Text)
      → contains (c ∷ name) b'{' ≡ false
      → (c == b'}') ≡ false
      → (let m = new_mutex defaults opts (c ∷ name) in
          let l = new_leader defaults opts (c ∷ name) in
          let ks = (new_rw_mutex defaults opts (c ∷ name)).keys in
          All
            (λ k. slot k ≡ slot (key (c ∷ name)))
            (m.key ∷ m.fkey ∷ l.key ∷ l.fkey ∷ ks.writer ∷ ks.readers ∷ ks.fencing ∷ ks.waiters
              ∷ ks.waiter_ts ∷ ks.seq ∷ []))
  unfolding new_mutex new_leader new_rw_mutex
  one_slot defaults opts c name no_brace e =
      let d = λ (suffix : Text). slot-derived slot laws c name suffix no_brace e in
      (refl, (d _, (refl, (d _, (d _, (d _, (d _, (d _, (d _, (d _, tt))))))))))
