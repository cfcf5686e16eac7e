-- ===== src/Locks/Semaphore/Within.antt =====
-- A semaphore stays within its capacity through whole calls of its API.
use distsync.Common.{
  ℕ, zero, suc, ◌+◌, ◌-◌, ◌≤◌, ◌≡◌, inl, inr, refl, sym, ap, ◌∙◌, Option, some, List, Text, arith,
  Option-cases, All,
}
use mathlib.Core.Option.{none-ne-some}
use distsync.Redis.{SortedSets, SortedSetLaws}
use distsync.Lease.Core.{Error, delivered}
use distsync.Lease.PermitSet.{PermitSet, new_permit_set}
use distsync.Lease.PermitSet.Within.{try_acquire-zcard, try_acquire-same}
use distsync.Locks.Loop.{Round, acquire_loop}
use distsync.Locks.Loop.Waiting.{loop_preserves}
use distsync.Locks.Semaphore.{Semaphore, Permit, Attempt, attempt, acquire, granted, available}

module _ {Db : Type 0} (redis : SortedSets Db) (laws : SortedSetLaws redis) where
  open redis use {zcard}

  IsWithin : Text → ℕ → Db × PermitSet → Type 0
  IsWithin key capacity (db, l) =
      (l.key ≡ key) × (l.capacity ≡ capacity) × (zcard db key ≤ capacity)

  attempt-IsWithin :
      (key : Text) (capacity n : ℕ) (s : Db × PermitSet) (a : Attempt Db)
      → ((d : Db) → zcard d key ≤ capacity → zcard (a.others d) key ≤ capacity)
      → IsWithin key capacity s
      → IsWithin key capacity (attempt redis n s a).0
  unfolding attempt IsWithin
  attempt-IsWithin key capacity n (db, l) a keeps (k, c, h) =
      let (k', c') = try_acquire-same redis laws l n a.trip a.cleanup (a.others db) in
      let h' = try_acquire-zcard redis laws l n a.trip a.cleanup (a.others db) in
      (k' ∙ k, c' ∙ c, ground (arith, k, c, h', keeps db h))

  granted-db :
      (s : Semaphore) (n now : ℕ) (o : (Db × PermitSet) × Unit {0} × Error)
      (out : Db × Option Permit × Error)
      → granted redis s n now (some o) ≡ some out
      → o.0.0 ≡ out.0
  granted-db s n now o out e = ground (arith, e)

  acquire-granted :
      (s : Semaphore) (token : Text) (n : ℕ) (rounds : List (Round (Attempt Db))) (now : ℕ)
      (db : Db)
      → acquire redis s token (suc n) rounds now db
        ≡ granted redis s (suc n) now (
            acquire_loop
              (attempt redis (suc n))
              (db, new_permit_set token s.key s.ttl s.capacity)
              rounds)
  unfolding acquire
  acquire-granted s token n rounds now db = ground arith

  within :
      (s : Semaphore) (token : Text) (n : ℕ) (rounds : List (Round (Attempt Db))) (now : ℕ)
      (db : Db) (out : Db × Option Permit × Error)
      → zcard db s.key ≤ s.capacity
      → All
          (λ r. (d : Db) → zcard d s.key ≤ s.capacity → zcard (r.env.others d) s.key ≤ s.capacity)
          rounds
      → acquire redis s token n rounds now db ≡ some out
      → zcard out.0 s.key ≤ s.capacity
  unfolding acquire new_permit_set IsWithin
  within s token zero rounds now db out h keeps e = ground (arith, e, h)
  within s token (suc n) rounds now db out h keeps e =
      let start = new_permit_set token s.key s.ttl s.capacity in
      let e' = sym (acquire-granted s token n rounds now db) ∙ e in
      elim (Option-cases (acquire_loop (attempt redis (suc n)) (db, start) rounds)) [
        | inl q ↦ absurd (none-ne-some out (ap (granted redis s (suc n) now) (sym q) ∙ e'))
        | inr (o, q) ↦
            let (k, c, h') =
              loop_preserves (attempt redis (suc n)) (IsWithin s.key s.capacity)
                (λ a. (d : Db) → zcard d s.key ≤ s.capacity → zcard (a.others d) s.key ≤ s.capacity)
                (λ u a keep g. attempt-IsWithin s.key s.capacity (suc n) u a keep g) (db, start)
                rounds o (refl, refl, h) keeps q in
            let same =
              granted-db s (suc n) now o out (ap (granted redis s (suc n) now) (sym q) ∙ e') in
            rw (← same) h'
      ]

  -- A semaphore that is within its capacity, and that the other clients keep there, is within it
  -- when Acquire returns, whatever became of its requests and of late grants; and Available then
  -- reports what is left of the capacity.
  pub acquire_within :
      (s : Semaphore) (token : Text) (n : ℕ) (rounds : List (Round (Attempt Db))) (now : ℕ)
      (db : Db) (out : Db × Option Permit × Error)
      → zcard db s.key ≤ s.capacity
      → All
          (λ r. (d : Db) → zcard d s.key ≤ s.capacity → zcard (r.env.others d) s.key ≤ s.capacity)
          rounds
      → acquire redis s token n rounds now db ≡ some out
      → (free : ℕ) × (available redis s delivered out.0 ≡ some free)
        × (free + zcard out.0 s.key ≡ s.capacity)
  unfolding available
  acquire_within s token n rounds now db out h keeps e = (
    s.capacity - zcard out.0 s.key,
    refl,
    omega (arith, within s token n rounds now db out h keeps e),
  )
