-- ===== src/Locks/Loop/Leaving.antt =====
-- How the loop of rwmutex.go ends.
use distsync.Common.{
  ◌≡◌, ◌⊎◌, inl, inr, refl, true, false, not, some, List, [], ◌∷◌, ◌++◌, ◌||◌, arith, Bool-cases,
  some_eq, sym, ap, ◌∙◌, ◌≢◌,
}
use distsync.Lease.Core.{Error, busy, canceled, is_error}
use distsync.Locks.Loop.{Round, queue_loop}
use distsync.Locks.Loop.Waiting.{Waited, at_once, after_round, busy-is_nil}

module _ {S E A : Type 0} (try : S → E → S × A × Error) (leave : S → E → S) where
  -- After rounds that were all busy, by the answer of the next attempt, which is not ErrBusy, or by
  -- the context after one more busy attempt, and then the queue has been left.
  unfoldable pub HasLeft : S → List (Round E) → S × A × Error → Type 0
  HasLeft s rounds out =
      (waits : List (Round E)) × (r : Round E) × (rest : List (Round E)) × (s' : S) × (rounds
        ≡ waits ++ r ∷ rest)
      × Waited try s waits s'
      × (((try s' r.env ≡ out) × (is_error out.2 busy ≡ false))
          ⊎ ((is_error (try s' r.env).2 busy ≡ true)
              × ((r.over || not r.woken) ≡ true)
              × (out ≡ (leave (try s' r.env).0 r.env, (try s' r.env).1, canceled ∷ []))))

  module _ (s : S) (r : Round E) (rs : List (Round E)) where
    queue_loop-answered :
        is_error (try s r.env).2 busy ≡ false → queue_loop try leave s (r ∷ rs) ≡ some (try s r.env)
    unfolding queue_loop
    queue_loop-answered n = ground (arith, n)

    queue_loop-over :
        is_error (try s r.env).2 busy ≡ true
        → (r.over || not r.woken) ≡ true
        → queue_loop try leave s (r ∷ rs)
          ≡ some (leave (try s r.env).0 r.env, (try s r.env).1, canceled ∷ [])
    unfolding queue_loop
    queue_loop-over b o = ground (arith, b, o, busy-is_nil (try s r.env).2 b)

    queue_loop-waits :
        is_error (try s r.env).2 busy ≡ true
        → (r.over || not r.woken) ≡ false
        → queue_loop try leave s (r ∷ rs) ≡ queue_loop try leave (try s r.env).0 rs
    unfolding queue_loop
    queue_loop-waits b o = ground (arith, b, o, busy-is_nil (try s r.env).2 b)

  nothing-left : (s : S) (out : S × A × Error) → queue_loop try leave s [] ≢ some out
  unfolding queue_loop
  nothing-left s out e = ground arith

  pub queue_loop-HasLeft :
      (s : S) (rounds : List (Round E)) (out : S × A × Error)
      → queue_loop try leave s rounds ≡ some out
      → HasLeft s rounds out
  unfolding HasLeft
  queue_loop-HasLeft s [] out e = absurd (nothing-left s out e)
  queue_loop-HasLeft s (r ∷ rs) out e = elim (Bool-cases (is_error (try s r.env).2 busy)) [
    | inr n ↦
        let q = some_eq (sym (queue_loop-answered s r rs n) ∙ e) in
        ([], r, rs, s, refl, at_once, inl (q, rw (← q) n))
    | inl b ↦ elim (Bool-cases (r.over || not r.woken)) [
      | inl o ↦
          ([], r, rs, s, refl, at_once, inr (b, o, some_eq (sym e ∙ queue_loop-over s r rs b o)))
      | inr o ↦
          let (ws, r', rest, s', q, w, last) =
            queue_loop-HasLeft (try s r.env).0 rs out (sym (queue_loop-waits s r rs b o) ∙ e) in
          (r ∷ ws, r', rest, s', ap (λ l. r ∷ l) q, after_round b w, last)
    ]
  ]

  -- What every attempt keeps is kept in the rounds that were waited.
  pub Waited-kept :
      (Good : S → Type 0)
      → ((s : S) (env : E) → Good s → Good (try s env).0)
      → (s : S) (rounds : List (Round E)) (s' : S) → Good s
      → Waited try s rounds s'
      → Good s'
  Waited-kept Good keeps s [] s' g at_once = g
  Waited-kept Good keeps s (r ∷ rs) s' g (after_round b w) =
      Waited-kept Good keeps (try s r.env).0 rs s' (keeps s r.env g) w
