-- ===== src/Lease/ReadWrite/Lives.antt =====
-- A held role of a read-write lock among the calls of all other clients: what its handle's renewals,
-- and the calls of the others, do one after the other.
use distsync.Common.{ℕ, ◌+◌, ◌-◌, ◌≤◌, ◌<◌, ◌≡◌, List, [], ◌∷◌, All, arith, dec_lt, Text}
use distsync.Lease.Core.{Trip, Fate, milliseconds}
use distsync.Lease.Interface.{Methods}
use distsync.Lease.ReadWrite.Scripts.{RwKeys, Server, Store}
use distsync.Lease.ReadWrite.Calls.{Call, IsOther, serve}

-- A call of another client; or a renewal of the holder's, whose request the server runs, or would
-- run, some time after the turn before and some time after it was made, and whose reply comes later.
pub data Turn : Type 0 where
  theirs : Call → Turn
  ours : (delay age wait : ℕ) → Fate → Turn

abbrev pub trip_of : (at age wait : ℕ) → Fate → Trip
trip_of at age wait fate = record { sent = at - age; served = at; back = at + wait; fate = fate }

-- Others call with tokens of their own.
abbrev pub IsTheirs : Text → Turn → Type 0
IsTheirs x (theirs c) = IsOther x c.kind
IsTheirs x (ours delay age wait fate) = Unit

-- The holder makes its requests in their order, the first of these not before `last`.
unfoldable pub InOrder : (last t : ℕ) → List Turn → Type 0
InOrder last t [] = Unit
InOrder last t (theirs c ∷ ts) = InOrder last (t + c.delay) ts
InOrder last t (ours delay age wait fate ∷ ts) =
    let rest = InOrder (t + delay - age) (t + delay) ts in (last ≤ t + delay - age) × rest

module _ {S Z Q H L : Type 0} (redis : Server S Z Q H) (keys : RwKeys)
    (methods : Methods (Store S Z Q H) L) where
  unfoldable pub live : ℕ → Store S Z Q H → L → List Turn → ℕ × Store S Z Q H × L
  live t s l [] = (t, s, l)
  live t s l (theirs c ∷ ts) =
      let t' = t + c.delay in
      live t' (serve redis keys t' (milliseconds (t' - c.age)) s c.kind) l ts
  live t s l (ours delay age wait fate ∷ ts) =
      let t' = t + delay in
      let r = methods.renew l (trip_of t' age wait fate) s in live t' r.0 r.1 ts

  module _
      (too_late : (l : L) (trip : Trip) (s : Store S Z Q H)
        → methods.expires_at l ≤ trip.back
        → methods.expires_at (methods.renew l trip s).1 ≡ methods.expires_at l) where
    -- A lease whose deadline is over does not become valid again.
    live-over :
        (t : ℕ) (s : Store S Z Q H) (l : L) (ts : List Turn)
        → methods.expires_at l ≤ t
        → methods.expires_at (live t s l ts).2 ≤ (live t s l ts).0
    unfolding live
    live-over t s l [] over = over
    live-over t s l (theirs c ∷ ts) over = live-over (t + c.delay) _ l ts (omega (arith, over))
    live-over t s l (ours delay age wait fate ∷ ts) over =
        let trip = trip_of (t + delay) age wait fate in
        let same = too_late l trip s (omega (arith, over)) in
        live-over (t + delay) _ _ ts (omega (arith, over, same))

    -- What the calls of others keep before the deadline, and renewals that are served before it keep,
    -- is kept for as long as the lease is valid.
    module _ (Keeps : (last t : ℕ) → Store S Z Q H → L → Type 0) (x : Text)
        (their_turn : (last t : ℕ) (s : Store S Z Q H) (l : L) (c : Call)
          → Keeps last t s l
          → IsOther x c.kind
          → t + c.delay < methods.expires_at l
          → Keeps last
              (t + c.delay)
              (serve redis keys (t + c.delay) (milliseconds (t + c.delay - c.age)) s c.kind)
              l)
        (our_turn : (last t : ℕ) (s : Store S Z Q H) (l : L) (delay age wait : ℕ) (fate : Fate)
          → Keeps last t s l
          → last ≤ t + delay - age
          → t + delay < methods.expires_at l
          → let r = methods.renew l (trip_of (t + delay) age wait fate) s in
            Keeps (t + delay - age) (t + delay) r.0 r.1) where
      pub live-kept :
          (last t : ℕ) (s : Store S Z Q H) (l : L) (ts : List Turn)
          → Keeps last t s l
          → InOrder last t ts
          → All (IsTheirs x) ts
          → (live t s l ts).0 < methods.expires_at (live t s l ts).2
          → (last' : ℕ) × Keeps last' (live t s l ts).0 (live t s l ts).1 (live t s l ts).2
      unfolding live InOrder
      live-kept last t s l [] k in_order others valid = (last, k)
      live-kept last t s l (theirs c ∷ ts) k in_order (other, others) valid =
          let t' = t + c.delay in
          let s' = serve redis keys t' (milliseconds (t' - c.age)) s c.kind in
          elim (dec_lt t' (methods.expires_at l)) [
            | yes lt ↦
                live-kept last t' s' l ts (their_turn last t s l c k other lt) in_order others valid
            | no over ↦ absurd (omega (arith, valid, live-over t' s' l ts (omega (arith, over))))
          ]
      live-kept last t s l (ours delay age wait fate ∷ ts) k (after, in_order) (_, others) valid =
          let t' = t + delay in
          let trip = trip_of t' age wait fate in
          let r = methods.renew l trip s in
          elim (dec_lt t' (methods.expires_at l)) [
            | yes lt ↦
                live-kept (t' - age) t' r.0 r.1 ts
                  (our_turn last t s l delay age wait fate k after lt) in_order others valid
            | no over ↦
                let same = too_late l trip s (omega (arith, over)) in
                absurd (omega (arith, valid, live-over t' r.0 r.1 ts (omega (arith, over, same))))
          ]
