-- ===== src/Renewer/Notices.antt =====
-- What the renewal loop calls, and that it ends.
use distsync.Common.{
  ℕ, ◌+◌, ◌≡◌, ◌⊎◌, inl, inr, refl, true, false, Option, none, some, List, [], ◌∷◌, ◌++◌, arith,
  length, Bool-cases, subst, some_eq, sym, ◌∙◌, ap,
}
use mathlib.Core.Option.{none-ne-some}
use distsync.Lease.Core.{Error, lost, is_error}
use distsync.Handle.Heartbeat.{lost-is_nil}
use distsync.Renewer.{Wake, context_over, tick, loop, one_more}

-- A tick in a live context, by what its call returned.
module _ (answer : Error) (ws : List Wake) where
  loop-lost : is_error answer lost ≡ true → loop (tick false answer false ∷ ws) ≡ some (1, 1)
  unfolding loop
  loop-lost h = ground (arith, h, lost-is_nil answer h)

  loop-continues :
      is_error answer lost ≡ false → loop (tick false answer false ∷ ws) ≡ one_more (loop ws)
  unfolding loop
  loop-continues h = ground (arith, h)

one_more-some :
    (o : Option (ℕ × ℕ)) (out : ℕ × ℕ)
    → one_more o ≡ some out
    → (n : ℕ) × (o ≡ some (n, out.1)) × (out.0 ≡ n + 1)
one_more-some none out e = absurd (none-ne-some out e)
one_more-some (some (n, k)) out e =
    (n, ap (λ (u : ℕ × ℕ). some (n, u.1)) (some_eq e), ap (λ (u : ℕ × ℕ). u.0) (sym (some_eq e)))

-- The loop ends as soon as its context is over.
pub loop_exits :
    (ws : List Wake) (rest : List Wake)
    → (out : ℕ × ℕ) × (loop (ws ++ context_over ∷ rest) ≡ some out)
unfolding loop
loop_exits [] rest = ((0, 0), refl)
loop_exits (context_over ∷ ws) rest = ((0, 0), refl)
loop_exits (tick true answer after ∷ ws) rest = ((0, 0), refl)
loop_exits (tick false answer true ∷ ws) rest = ((1, 0), refl)
loop_exits (tick false answer false ∷ ws) rest = elim (Bool-cases (is_error answer lost)) [
  | inl h ↦ (_, loop-lost answer (ws ++ context_over ∷ rest) h)
  | inr h ↦
      let (out, e) = loop_exits ws rest in
      (_, loop-continues answer (ws ++ context_over ∷ rest) h ∙ ap one_more e)
]

-- A loop that returned called onLost not at all; or once, after a call that returned ErrLost and was
-- its last, with the context live before and after it.
IsNotified : List Wake → ℕ × ℕ → Type 0
IsNotified ws (renewals, notices) =
    (notices ≡ 0)
    ⊎ ((notices ≡ 1)
        × ((before : List Wake) × (answer : Error) × (rest : List Wake) × (ws
              ≡ before ++ tick false answer false ∷ rest)
            × (is_error answer lost ≡ true)
            × (renewals ≡ length before + 1)))

IsNotified-tick :
    (answer : Error) (ws : List Wake) (n k : ℕ)
    → IsNotified ws (n, k)
    → IsNotified (tick false answer false ∷ ws) (n + 1, k)
unfolding IsNotified
IsNotified-tick answer ws n k (inl e) = inl e
IsNotified-tick answer ws n k (inr (e, (before, a, rest, split, h, count))) = inr (
  e,
  (
    tick false answer false ∷ before,
    a,
    rest,
    ap (λ l. tick false answer false ∷ l) split,
    h,
    omega (arith, count),
  ),
)

loop-IsNotified : (ws : List Wake) (out : ℕ × ℕ) → loop ws ≡ some out → IsNotified ws out
unfolding loop IsNotified
loop-IsNotified [] out e = absurd (none-ne-some out e)
loop-IsNotified (context_over ∷ ws) out e = inl (ap (λ (u : ℕ × ℕ). u.1) (sym (some_eq e)))
loop-IsNotified (tick true answer after ∷ ws) out e =
    inl (ap (λ (u : ℕ × ℕ). u.1) (sym (some_eq e)))
loop-IsNotified (tick false answer true ∷ ws) out e =
    inl (ap (λ (u : ℕ × ℕ). u.1) (sym (some_eq e)))
loop-IsNotified (tick false answer false ∷ ws) out e = elim (Bool-cases (is_error answer lost)) [
  | inl h ↦
      let q = some_eq (sym (loop-lost answer ws h) ∙ e) in
      inr (
        ap (λ (u : ℕ × ℕ). u.1) (sym q),
        ([], answer, ws, refl, h, ap (λ (u : ℕ × ℕ). u.0) (sym q)),
      )
  | inr h ↦
      let (n, q, count) = one_more-some (loop ws) out (sym (loop-continues answer ws h) ∙ e) in
      subst (λ m. IsNotified (tick false answer false ∷ ws) (m, out.1)) (sym count)
        (IsNotified-tick answer ws n out.1 (loop-IsNotified ws (n, out.1) q))
]

-- A renewal loop that returned called onLost not at all; or once, after a call of `renew` that
-- returned ErrLost and was its last, with the context live before and after it.
pub notified_once :
    (ws : List Wake) (renewals notices : ℕ)
    → loop ws ≡ some (renewals, notices)
    → (notices ≡ 0)
      ⊎ ((notices ≡ 1)
          × ((before : List Wake) × (answer : Error) × (rest : List Wake) × (ws
                ≡ before ++ tick false answer false ∷ rest)
              × (is_error answer lost ≡ true)
              × (renewals ≡ length before + 1)))
unfolding IsNotified
notified_once ws renewals notices e = loop-IsNotified ws (renewals, notices) e
