-- ===== src/Locks/RwMutex/Settled.antt =====
-- What the attempts of rwmutex.go's bodies decide, for either side of the lock.
use distsync.Common.{
  ℕ, ◌≡◌, ◌⊎◌, inl, inr, refl, true, false, some, List, [], ◌∷◌, ◌++◌, arith, some_eq, sym, ap, ◌∙◌,
  subst, Bool-cases, Option-cases,
}
use mathlib.Core.Option.{none-ne-some}
use distsync.Lease.Core.{Error, busy, canceled, not_acquired, is_error, Trip}
use distsync.Handle.{is_nil}
use distsync.Locks.Loop.{Round, queue_loop}
use distsync.Locks.Loop.Waiting.{Waited}
use distsync.Locks.Loop.Leaving.{HasLeft, queue_loop-HasLeft, Waited-kept}
use distsync.Locks.RwMutex.{
  RwMutex, Attempt, Side, guard, set_holder, attempt, leave, locked, tried, lock_side, try_side,
}

module _ {D L : Type 0} (side : Side D L) (Gone : Attempt D → D → Type 0) where
  -- By the answer of an attempt: it has no error, and its guard is the holder; or it is ErrBusy,
  -- `why` is returned without a guard, and the contender has left the queue; or it is another error,
  -- which is returned as it is.
  unfoldable pub IsSettled :
      RwMutex → ℕ → Attempt D → (D × L) × ℕ × Error → Error → D × RwMutex × Error → Type 0
  IsSettled m now a ((d, l), fence, e) why out =
      ((e ≡ []) × (out ≡ (d, set_holder side m (guard side m l fence now), e)))
      ⊎ (((is_error e busy ≡ true) × (out.2 ≡ why) × (out.1 ≡ m) × Gone a out.0)
          ⊎ ((is_nil e ≡ false) × (is_error e busy ≡ false) × (out ≡ (d, m, e))))

  nil-is_nil : (e : Error) → is_nil e ≡ true → e ≡ []
  nil-is_nil [] h = refl
  nil-is_nil (x ∷ xs) h = absurd (ground arith)

  module _ (Mine : L → Type 0)
      (keeps : (l : L) (trip cleanup : Trip) (d : D)
        → Mine l
        → Mine (side.acquire l trip cleanup d).1)
      (drops : (l : L) (a : Attempt D) (d : D) → Mine l → Gone a (leave side (d, l) a).0) where
    tried-IsSettled :
        (m : RwMutex) (now : ℕ) (a : Attempt D) (o : (D × L) × ℕ × Error)
        → Mine o.0.1
        → IsSettled m now a o (not_acquired ∷ []) (tried side m now a o)
    unfolding IsSettled
    tried-IsSettled m now a ((d, l), fence, e) mine = elim (Bool-cases (is_nil e)) [
      | inl n ↦ rw n (inl (nil-is_nil e n, refl))
      | inr n ↦ elim (Bool-cases (is_error e busy)) [
        | inl b ↦ rw (n, b) (inr (inl (refl, refl, refl, drops l a d mine)))
        | inr b ↦ rw (n, b) (inr (inr (refl, refl, refl)))
      ]
    ]

    attempt-Mine : (s : D × L) (a : Attempt D) → Mine s.1 → Mine (attempt side s a).0.1
    unfolding attempt
    attempt-Mine (d, l) a mine = keeps l a.trip a.cleanup (a.others d) mine

    pub try_side-IsSettled :
        (m : RwMutex) (l : L) (a : Attempt D) (now : ℕ) (d : D)
        → Mine l
        → IsSettled m now a (attempt side (d, l) a) (not_acquired ∷ []) (try_side side m l a now d)
    unfolding try_side
    try_side-IsSettled m l a now d mine =
        tried-IsSettled m now a (attempt side (d, l) a) (attempt-Mine (d, l) a mine)

    answered-IsSettled :
        (m : RwMutex) (now : ℕ) (a : Attempt D) (o : (D × L) × ℕ × Error)
        (out : D × RwMutex × Error)
        → is_error o.2 busy ≡ false
        → locked side m now (some o) ≡ some out
        → IsSettled m now a o (canceled ∷ []) out
    unfolding IsSettled
    answered-IsSettled m now a ((d, l), fence, e) out b h = elim (Bool-cases (is_nil e)) [
      | inl n ↦
          let q : out ≡ (d, set_holder side m (guard side m l fence now), e) =
            some_eq (sym h ∙ rw n refl) in
          inl (nil-is_nil e n, q)
      | inr n ↦ inr (inr (n, b, some_eq (sym h ∙ rw n refl)))
    ]

    given_up-IsSettled :
        (m : RwMutex) (now : ℕ) (a : Attempt D) (o : (D × L) × ℕ × Error)
        (out : D × RwMutex × Error)
        → Mine o.0.1
        → is_error o.2 busy ≡ true
        → locked side m now (some (leave side o.0 a, o.1, canceled ∷ [])) ≡ some out
        → IsSettled m now a o (canceled ∷ []) out
    unfolding IsSettled
    given_up-IsSettled m now a ((d, l), n, e) out mine b h =
        subst (IsSettled m now a ((d, l), n, e) (canceled ∷ [])) (some_eq h)
          (inr (inl (b, refl, refl, drops l a d mine)))

    pub lock_side-IsSettled :
        (m : RwMutex) (l : L) (rounds : List (Round (Attempt D))) (now : ℕ) (d : D)
        (out : D × RwMutex × Error)
        → Mine l
        → lock_side side m l rounds now d ≡ some out
        → (waits : List (Round (Attempt D))) × (r : Round (Attempt D)) × (rest : List
            (Round (Attempt D)))
          × (s' : D × L) × (rounds ≡ waits ++ r ∷ rest)
          × Waited (attempt side) (d, l) waits s'
          × IsSettled m now r.env (attempt side s' r.env) (canceled ∷ []) out
    unfolding lock_side HasLeft
    lock_side-IsSettled m l rounds now d out mine e =
        elim (Option-cases (queue_loop (attempt side) (leave side) (d, l) rounds)) [
          | inl q ↦ absurd (none-ne-some out (ap (locked side m now) (sym q) ∙ e))
          | inr (o, q) ↦
              let result = ap (locked side m now) (sym q) ∙ e in
              let (waits, r, rest, s', split, w, last) =
                queue_loop-HasLeft (attempt side) (leave side) (d, l) rounds o q in
              let mine' =
                Waited-kept (attempt side) (leave side) (λ s. Mine s.1) attempt-Mine (d, l) waits s'
                  mine w in
              (
                waits,
                r,
                rest,
                s',
                split,
                w,
                elim last [
                  | inl (p, n) ↦
                      subst (λ u. IsSettled m now r.env u (canceled ∷ []) out) (sym p)
                        (answered-IsSettled m now r.env o out n result)
                  | inr (b, over, p) ↦
                      given_up-IsSettled m now r.env (attempt side s' r.env) out
                        (attempt-Mine s' r.env mine') b
                        (ap (λ u. locked side m now (some u)) (sym p) ∙ result)
                ],
              )
        ]
