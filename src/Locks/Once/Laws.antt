-- ===== src/Locks/Once/Laws.antt =====
-- What Once leaves.
use distsync.Common.{
  ℕ, ◌≡◌, ◌⊎◌, inl, inr, refl, sym, ap, ◌∙◌, subst, true, false, some, List, [], ◌∷◌, ◌++◌, Text,
  length, arith, some_eq, Bool-cases, Option-cases,
}
use mathlib.Core.Option.{none-ne-some}
use distsync.Redis.{Strings}
use distsync.Lease.Core.{Error, Trip}
use distsync.Lease.SingleOwner.{SingleOwner}
use distsync.Lease.SingleOwner.Guarded.{single_owner}
use distsync.Handle.{is_nil, Handle, new_handle, check_deadline, release, finished, stop}
use distsync.Locks.Loop.{Round, acquire_loop}
use distsync.Locks.Mutex.{
  Guard, Mutex, Attempt, new_lease, attempt, locked, guard, set_holder, lock, unlock_guard,
  guard_at, set_guard,
}
use distsync.Locks.Once.{Outcome, returned, Fn, guarded, after_lock, once}

guard_at-last : (gs : List Guard) (g : Guard) → guard_at (gs ++ g ∷ []) (length gs) ≡ some g
guard_at-last [] g = refl
guard_at-last (h ∷ gs) g = guard_at-last gs g

guard_at-set_guard_last :
    (gs : List Guard) (g g' : Guard)
    → guard_at (set_guard (gs ++ g ∷ []) (length gs) g') (length gs) ≡ some g'
guard_at-set_guard_last [] g g' = refl
guard_at-set_guard_last (h ∷ gs) g g' = guard_at-set_guard_last gs g g'

module _ {Db : Type 0} (redis : Strings Db) where
  -- A new guard is not released yet.
  guard_unreleased :
      (m : Mutex) (l : SingleOwner) (fence now : ℕ)
      → (guard redis m l fence now).handle.release_done ≡ false
  unfolding guard check_deadline new_handle
  guard_unreleased m l fence now = ground arith

  -- Its release makes a call and marks it.
  release-stops :
      (h : Handle SingleOwner) (trip : Trip) (db : Db)
      → h.release_done ≡ false
      → (release (single_owner redis) h trip db).1.released ≡ true
  unfolding release finished stop
  release-stops h trip db e = ground (arith, e)

  -- The unlocking of a guard that is new.
  unlock-new :
      (m : Mutex) (g : Guard) (trip : Trip) (db : Db)
      → let r = release (single_owner redis) g.handle trip db in
        let m' = set_holder redis m g in
        unlock_guard redis m' (length m.guards) trip db ≡ (
          r.0,
          record m' {
            guards = set_guard (m.guards ++ g ∷ []) (length m.guards) (record g { handle = r.1 });
          },
          r.2,
        )
  unfolding set_holder unlock_guard
  unlock-new m g trip db = ground (arith, guard_at-last m.guards g)

module _ {Db T : Type 0} (redis : Strings Db) where
  -- `fn` ran between a Lock that succeeded and the release of its guard, which is stopped, and the
  -- outcome is `fn`'s; or Lock returned an error, and `fn` did not run.
  unfoldable pub IsGuarded :
      T → Mutex → Fn Db T → Trip → Db × Mutex × Error → Db × Mutex × Outcome T → Type 0
  IsGuarded empty m fn trip had out =
      ((is_nil had.2 ≡ true)
        × (g g' : Guard) × (guard_at had.1.guards (length m.guards) ≡ some g)
        × (g.handle.release_done ≡ false)
        × (out.0 ≡ (release (single_owner redis) g.handle trip (fn.effect had.0)).0)
        × (guard_at out.1.guards (length m.guards) ≡ some g')
        × (g'.handle.released ≡ true)
        × (out.2 ≡ fn.outcome))
      ⊎ ((is_nil had.2 ≡ false) × (out ≡ (had.0, m, returned empty had.2)))

  held-IsGuarded :
      (empty : T) (m : Mutex) (fn : Fn Db T) (trip : Trip) (l : SingleOwner) (fence now : ℕ)
      (db : Db) (e : Error)
      → is_nil e ≡ true
      → let r : Db × Mutex × Error = (db, set_holder redis m (guard redis m l fence now), e) in
        IsGuarded empty m fn trip r (guarded redis empty m fn trip r)
  unfolding IsGuarded set_holder
  held-IsGuarded empty m fn trip l fence now db e n =
      let g = guard redis m l fence now in
      let r = release (single_owner redis) g.handle trip (fn.effect db) in
      let g' : Guard = record g { handle = r.1 } in
      let here = guard_at-last m.guards g in
      let u = unlock-new redis m g trip (fn.effect db) in
      let fresh = guard_unreleased redis m l fence now in
      rw n (
        inl (
          refl,
          g,
          g',
          here,
          fresh,
          ap (λ o. o.0) u,
          ap (λ o. guard_at o.1.guards (length m.guards)) u ∙ guard_at-set_guard_last m.guards g g',
          release-stops redis g.handle trip (fn.effect db) fresh,
          refl,
        ))

  refused-IsGuarded :
      (empty : T) (m : Mutex) (fn : Fn Db T) (trip : Trip) (db : Db) (e : Error)
      → is_nil e ≡ false
      → let r : Db × Mutex × Error = (db, m, e) in
        IsGuarded empty m fn trip r (guarded redis empty m fn trip r)
  unfolding IsGuarded
  refused-IsGuarded empty m fn trip db e n = rw n (inr (refl, refl))

  locked-IsGuarded :
      (empty : T) (m : Mutex) (fn : Fn Db T) (trip : Trip) (now : ℕ)
      (o : (Db × SingleOwner) × ℕ × Error) (r : Db × Mutex × Error)
      → locked redis m now (some o) ≡ some r
      → IsGuarded empty m fn trip r (guarded redis empty m fn trip r)
  locked-IsGuarded empty m fn trip now ((db, l), fence, e) r h = elim (Bool-cases (is_nil e)) [
    | inl n ↦
        let q : (db, set_holder redis m (guard redis m l fence now), e) ≡ r =
          some_eq (sym (rw n refl) ∙ h) in
        subst (λ u. IsGuarded empty m fn trip u (guarded redis empty m fn trip u)) q
          (held-IsGuarded empty m fn trip l fence now db e n)
    | inr n ↦
        let q : (db, m, e) ≡ r = some_eq (sym (rw n refl) ∙ h) in
        subst (λ u. IsGuarded empty m fn trip u (guarded redis empty m fn trip u)) q
          (refused-IsGuarded empty m fn trip db e n)
  ]

  -- Whenever Once returns, its Lock did. If Lock took the lock, then whatever `fn` came to, an error or
  -- a panic included, the release of the new guard was called after it, the guard is stopped, and
  -- `fn`'s outcome is returned; and otherwise `fn` was not called, nothing was released, and Lock's
  -- error is returned.
  pub once-IsGuarded :
      (empty : T) (m : Mutex) (token : Text) (rounds : List (Round (Attempt Db))) (now : ℕ)
      (fn : Fn Db T) (trip : Trip) (db : Db) (out : Db × Mutex × Outcome T)
      → once redis empty m token rounds now fn trip db ≡ some out
      → (r : Db × Mutex × Error) × (lock redis m token rounds now db ≡ some r)
        × IsGuarded empty m fn trip r out
  unfolding once lock
  once-IsGuarded empty m token rounds now fn trip db out e =
      elim (Option-cases (acquire_loop (attempt redis) (db, new_lease m token) rounds)) [
        | inl q ↦ absurd (
            none-ne-some out
              (ap (λ o. after_lock redis empty m fn trip (locked redis m now o)) (sym q) ∙ e))
        | inr (o, q) ↦ elim (Option-cases (locked redis m now (some o))) [
          | inl q' ↦ absurd (
              none-ne-some out (
                ap (after_lock redis empty m fn trip) (sym q' ∙ ap (locked redis m now) (sym q))
                ∙ e))
          | inr (r, q') ↦
              let same = some_eq (
                sym (ap (after_lock redis empty m fn trip) (ap (locked redis m now) q ∙ q')) ∙ e) in
              (
                r,
                ap (locked redis m now) q ∙ q',
                subst (IsGuarded empty m fn trip r) same
                    (locked-IsGuarded empty m fn trip now o r q'),
              )
        ]
      ]
