-- ===== src/Locks/Loop/Waiting.antt =====
-- What the loop returns, and that it returns.
use distsync.Common.{
  ◌≡◌, ◌⊎◌, inl, inr, refl, true, false, not, some, List, [], ◌∷◌, ◌++◌, ◌||◌, arith, Bool-cases,
  some_eq, All, subst, sym, ap, ◌∙◌, ◌≢◌,
}
use mathlib.Core.Bool.{false≢true}
use distsync.Lease.Core.{Error, busy, canceled, is_error}
use distsync.Handle.{is_nil}
use distsync.Locks.Loop.{Round, acquire_loop}

-- The rounds in which every attempt was busy and the timer woke the loop.
pub data Waited {S E A : Type 0} (try : S → E → S × A × Error)
    : S → List (Round E) → S → Type 0 where
  at_once : {s : S} → Waited try s [] s
  after_round :
      {s s' : S} {r : Round E} {rs : List (Round E)}
      → is_error (try s r.env).2 busy ≡ true
      → Waited try (try s r.env).0 rs s'
      → Waited try s (r ∷ rs) s'

-- How a loop ends: after rounds that were all busy, by the answer of the next attempt, which is not
-- ErrBusy, or by the context after one more busy attempt.
unfoldable pub HasEnded :
    {S E A : Type 0} → (S → E → S × A × Error) → S → List (Round E) → S × A × Error → Type 0
HasEnded {S} {E} try s rounds out =
    (waits : List (Round E)) × (r : Round E) × (rest : List (Round E)) × (s' : S) × (rounds
      ≡ waits ++ r ∷ rest)
    × Waited try s waits s'
    × (((try s' r.env ≡ out) × (is_error out.2 busy ≡ false))
        ⊎ ((is_error (try s' r.env).2 busy ≡ true)
            × (((r.over || not r.woken) ≡ true))
            × ((try s' r.env).0 ≡ out.0)
            × (out.2 ≡ canceled ∷ [])))

pub busy-is_nil : (e : Error) → is_error e busy ≡ true → is_nil e ≡ false
unfolding is_error
busy-is_nil [] h = absurd (false≢true h)
busy-is_nil (e ∷ es) h = refl

not_busy : is_error (canceled ∷ []) busy ≡ false
unfolding is_error
not_busy = refl

module _ {S E A : Type 0} (try : S → E → S × A × Error) where
  module _ (s : S) (r : Round E) (rs : List (Round E)) where
    -- What one round does, by what its attempt answers.
    loop-answered :
        is_error (try s r.env).2 busy ≡ false → acquire_loop try s (r ∷ rs) ≡ some (try s r.env)
    unfolding acquire_loop
    loop-answered n = ground (arith, n)

    loop-over :
        is_error (try s r.env).2 busy ≡ true
        → (r.over || not r.woken) ≡ true
        → acquire_loop try s (r ∷ rs) ≡ some ((try s r.env).0, (try s r.env).1, canceled ∷ [])
    unfolding acquire_loop
    loop-over b o = ground (arith, b, o, busy-is_nil (try s r.env).2 b)

    loop-waits :
        is_error (try s r.env).2 busy ≡ true
        → (r.over || not r.woken) ≡ false
        → acquire_loop try s (r ∷ rs) ≡ acquire_loop try (try s r.env).0 rs
    unfolding acquire_loop
    loop-waits b o = ground (arith, b, o, busy-is_nil (try s r.env).2 b)

  nothing-returned : (s : S) (out : S × A × Error) → acquire_loop try s [] ≢ some out
  unfolding acquire_loop
  nothing-returned s out e = ground arith

  -- A loop that returns has ended in one of these ways; so it never returns ErrBusy, and what it
  -- returns without an error is the grant of its last attempt.
  pub loop_ended :
      (s : S) (rounds : List (Round E)) (out : S × A × Error)
      → acquire_loop try s rounds ≡ some out
      → HasEnded try s rounds out × (is_error out.2 busy ≡ false)
  unfolding HasEnded
  loop_ended s [] out e = absurd (nothing-returned s out e)
  loop_ended s (r ∷ rs) out e = elim (Bool-cases (is_error (try s r.env).2 busy)) [
    | inr n ↦
        let q = some_eq (sym (loop-answered s r rs n) ∙ e) in
        let m : is_error out.2 busy ≡ false = rw (← q) n in
        (([], r, rs, s, refl, at_once, inl (q, m)), m)
    | inl b ↦ elim (Bool-cases (r.over || not r.woken)) [
      | inl o ↦
          let q = some_eq (sym (loop-over s r rs b o) ∙ e) in
          (
            ([], r, rs, s, refl, at_once, inr (b, o, ap (λ u. u.0) q, ap (λ u. u.2) (sym q))),
            rw (← q) not_busy,
          )
      | inr o ↦
          let ((ws, r', rest, s', q, w, last), m) =
            loop_ended (try s r.env).0 rs out (sym (loop-waits s r rs b o) ∙ e) in
          ((r ∷ ws, r', rest, s', ap (λ l. r ∷ l) q, after_round b w, last), m)
    ]
  ]

  -- The loop returns as soon as the context is over: any rounds that hold one where it is are enough.
  pub loop_returns :
      (s : S) (waits : List (Round E)) (r : Round E) (rest : List (Round E))
      → (r.over || not r.woken) ≡ true
      → (out : S × A × Error) × (acquire_loop try s (waits ++ r ∷ rest) ≡ some out)
  loop_returns s [] r rest h = elim (Bool-cases (is_error (try s r.env).2 busy)) [
    | inr n ↦ (_, loop-answered s r rest n)
    | inl b ↦ (_, loop-over s r rest b h)
  ]
  loop_returns s (w ∷ ws) r rest h = elim (Bool-cases (is_error (try s w.env).2 busy)) [
    | inr n ↦ (_, loop-answered s w (ws ++ r ∷ rest) n)
    | inl b ↦ elim (Bool-cases (w.over || not w.woken)) [
      | inl o ↦ (_, loop-over s w (ws ++ r ∷ rest) b o)
      | inr o ↦
          let (out, q) = loop_returns (try s w.env).0 ws r rest h in
          (out, loop-waits s w (ws ++ r ∷ rest) b o ∙ q)
    ]
  ]

  -- What every attempt keeps, in rounds that allow it, the loop keeps.
  pub loop_preserves :
      (Good : S → Type 0) (Allows : E → Type 0)
      → ((s : S) (env : E) → Allows env → Good s → Good (try s env).0)
      → (s : S) (rounds : List (Round E)) (out : S × A × Error) → Good s
      → All (λ r. Allows r.env) rounds
      → acquire_loop try s rounds ≡ some out
      → Good out.0
  loop_preserves Good Allows keeps s [] out g a e = absurd (nothing-returned s out e)
  loop_preserves Good Allows keeps s (r ∷ rs) out g (a, as') e =
      let g' = keeps s r.env a g in
      elim (Bool-cases (is_error (try s r.env).2 busy)) [
        | inr n ↦
            subst (λ (u : S × A × Error). Good u.0) (some_eq (sym (loop-answered s r rs n) ∙ e)) g'
        | inl b ↦ elim (Bool-cases (r.over || not r.woken)) [
          | inl o ↦
              subst (λ (u : S × A × Error). Good u.0) (some_eq (sym (loop-over s r rs b o) ∙ e)) g'
          | inr o ↦
              loop_preserves Good Allows keeps (try s r.env).0 rs out g' as'
                (sym (loop-waits s r rs b o) ∙ e)
        ]
      ]
