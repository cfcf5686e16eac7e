-- ===== src/Locks/Mutex/Laws.antt =====
-- What Lock, TryLock and Unlock of a Mutex do.
use distsync.Common.{
  ℕ, zero, suc, ◌≡◌, ◌⊎◌, inl, inr, refl, true, false, not, none, some, List, [], ◌∷◌, ◌++◌, ◌||◌,
  arith, some_eq, sym, ap, ◌∙◌, Text, subst, Option-cases,
}
use mathlib.Core.Option.{none-ne-some}
use distsync.Redis.{Strings, StringLaws}
use distsync.Lease.Core.{Error, busy, lost, canceled, not_acquired, is_error, Trip}
use distsync.Lease.SingleOwner.{SingleOwner}
use distsync.Lease.SingleOwner.Guarded.{single_owner}
use distsync.Lease.SingleOwner.Methods.{busy_means_held}
use distsync.Handle.{is_nil, release}
use distsync.Handle.Release.{release-done, release-finished}
use distsync.Locks.Loop.{Round, acquire_loop}
use distsync.Locks.Loop.Waiting.{Waited, at_once, after_round, HasEnded, loop_ended, busy-is_nil}
use distsync.Locks.Mutex.{
  Guard, Mutex, Attempt, new_lease, attempt, lock, try_lock, unlock_guard, unlock, guard_at,
  set_guard, locked, tried, dropped,
}

-- What the other clients do to the database during some rounds.
unfoldable pub meanwhile : {Db : Type 0} → List (Round (Attempt Db)) → Db → Db
meanwhile [] db = db
meanwhile (r ∷ rs) db = meanwhile rs (r.env.others db)

module _ {Db : Type 0} (redis : Strings Db) (laws : StringLaws redis) where
  attempt-busy :
      (db : Db) (l : SingleOwner) (a : Attempt Db)
      → is_error (attempt redis (db, l) a).2 busy ≡ true
      → (attempt redis (db, l) a).0 ≡ (a.others db, l)
  unfolding attempt
  attempt-busy db l a b =
      let (f, h, d, k) = busy_means_held redis laws l a.trip a.cleanup (a.others db) b in cc

  Waited-meanwhile :
      (db : Db) (l : SingleOwner) (rs : List (Round (Attempt Db))) (s : Db × SingleOwner)
      → Waited (attempt redis) (db, l) rs s
      → s ≡ (meanwhile rs db, l)
  unfolding meanwhile
  Waited-meanwhile db l [] s at_once = refl
  Waited-meanwhile db l (r ∷ rs) s (after_round b w) =
      Waited-meanwhile (r.env.others db) l rs s
        (subst (λ u. Waited (attempt redis) u rs s) (attempt-busy db l r.env b) w)

  -- Lock and TryLock make the same of an answer that is not ErrBusy, and of one that is.
  module _ (m : Mutex) (now : ℕ) (o : (Db × SingleOwner) × ℕ × Error) where
    tried-locked :
        is_error o.2 busy ≡ false → locked redis m now (some o) ≡ some (tried redis m now o)
    tried-locked n = ground (arith, n)

    tried-busy : is_error o.2 busy ≡ true → (tried redis m now o).2 ≡ not_acquired ∷ []
    tried-busy b = ground (arith, b, busy-is_nil o.2 b)

    locked-canceled :
        o.2 ≡ canceled ∷ [] → locked redis m now (some o) ≡ some (o.0.0, m, canceled ∷ [])
    locked-canceled c = rw c refl

  -- An outcome is TryLock's in one of the rounds, on a database that only the others have changed
  -- since the first; or, when TryLock says ErrNotAcquired there and the context is over, it is the
  -- context's error, with nothing changed and nothing held.
  unfoldable pub IsOneAttempt :
      Mutex → Text → List (Round (Attempt Db)) → ℕ → Db → Db × Mutex × Error → Type 0
  IsOneAttempt m token rounds now db out =
      (waits : List (Round (Attempt Db))) × (r : Round (Attempt Db)) × (rest : List
        (Round (Attempt Db)))
      × (rounds ≡ waits ++ r ∷ rest)
      × ((try_lock redis m token r.env now (meanwhile waits db) ≡ out)
          ⊎ (((try_lock redis m token r.env now (meanwhile waits db)).2 ≡ not_acquired ∷ [])
              × ((r.over || not r.woken) ≡ true)
              × (out ≡ (r.env.others (meanwhile waits db), m, canceled ∷ []))))

  -- Whatever Lock returns, it is TryLock's outcome in one of its rounds, on a database that only the
  -- others have changed since the first; or, where TryLock says ErrNotAcquired and the context is
  -- over, the context's error, with nothing changed and nothing held.
  pub lock-IsOneAttempt :
      (m : Mutex) (token : Text) (rounds : List (Round (Attempt Db))) (now : ℕ) (db : Db)
      (out : Db × Mutex × Error)
      → lock redis m token rounds now db ≡ some out
      → IsOneAttempt m token rounds now db out
  unfolding lock try_lock HasEnded IsOneAttempt
  lock-IsOneAttempt m token rounds now db out e =
      elim (Option-cases (acquire_loop (attempt redis) (db, new_lease m token) rounds)) [
        | inl q ↦ absurd (none-ne-some out (ap (locked redis m now) (sym q) ∙ e))
        | inr (o, q) ↦
            let ((waits, r, rest, s, split, w, last), _) =
              loop_ended (attempt redis) (db, new_lease m token) rounds o q in
            let fresh = Waited-meanwhile db (new_lease m token) waits s w in
            let result = ap (locked redis m now) (sym q) ∙ e in
            (
              waits,
              r,
              rest,
              split,
              elim last [
                | inl (p, n) ↦ inl (
                    ap (tried redis m now) (ap (λ u. attempt redis u r.env) (sym fresh) ∙ p)
                    ∙ some_eq (sym (tried-locked m now o n) ∙ result))
                | inr (b, ended, same, c) ↦
                    let b' = subst (λ u. is_error (attempt redis u r.env).2 busy ≡ true) fresh b in
                    let left = attempt-busy (meanwhile waits db) (new_lease m token) r.env b' in
                    let at = sym same ∙ ap (λ u. (attempt redis u r.env).0) fresh ∙ left in
                    inr (
                      tried-busy m now _ b',
                      ended,
                      some_eq (sym result ∙ locked-canceled m now o c)
                          ∙ ap (λ d. (d, m, canceled ∷ [])) (ap (λ u. u.0) at),
                    )
              ],
            )
      ]

  guard_at-set_guard :
      (gs : List Guard) (i : ℕ) (g g' : Guard)
      → guard_at gs i ≡ some g
      → guard_at (set_guard gs i g') i ≡ some g'
  guard_at-set_guard [] i g g' k = absurd (none-ne-some _ k)
  guard_at-set_guard (h ∷ gs) zero g g' k = refl
  guard_at-set_guard (h ∷ gs) (suc i) g g' k = guard_at-set_guard gs i g g' k

  set_guard-same :
      (gs : List Guard) (i : ℕ) (g : Guard) → guard_at gs i ≡ some g → set_guard gs i g ≡ gs
  set_guard-same [] i g k = refl
  set_guard-same (h ∷ gs) zero g k = ap (λ u. u ∷ gs) (sym (some_eq k))
  set_guard-same (h ∷ gs) (suc i) g k = ap (λ u. h ∷ u) (set_guard-same gs i g k)

  -- Unlocking a guard that is there releases its handle, and stores it.
  unlock_guard-there :
      (m : Mutex) (i : ℕ) (g : Guard) (trip : Trip) (db : Db)
      → guard_at m.guards i ≡ some g
      → let r = release (single_owner redis) g.handle trip db in
        unlock_guard redis m i trip db
        ≡ (r.0, record m { guards = set_guard m.guards i (record g { handle = r.1 }) }, r.2)
  unfolding unlock_guard
  unlock_guard-there m i g trip db k = ground (arith, k)

  unlock_guard-finished :
      (m : Mutex) (i : ℕ) (g : Guard) (trip : Trip) (db : Db)
      → guard_at m.guards i ≡ some g
      → g.handle.release_done ≡ true
      → unlock_guard redis m i trip db ≡ (db, m, [])
  unlock_guard-finished m i g trip db k d =
      unlock_guard-there m i g trip db k
      ∙ rw (release-finished (single_owner redis) g.handle trip db d, set_guard-same m.guards i g k)
          refl

  unlock-there :
      (m : Mutex) (i : ℕ) (trip : Trip) (db : Db)
      → m.holder ≡ some i
      → unlock redis m trip db ≡ dropped redis (unlock_guard redis m i trip db)
  unfolding unlock
  unlock-there m i trip db h = ground (arith, h)

  unlock-answered :
      (m : Mutex) (i : ℕ) (g : Guard) (trip : Trip) (db : Db)
      → m.holder ≡ some i
      → guard_at m.guards i ≡ some g
      → (is_nil (unlock redis m trip db).2 || is_error (unlock redis m trip db).2 lost) ≡ true
      → let r = release (single_owner redis) g.handle trip db in
        ((is_nil r.2 || is_error r.2 lost) ≡ true)
        × ((unlock redis m trip db).1
            ≡ record m { guards = set_guard m.guards i (record g { handle = r.1 }); holder = none })
  unlock-answered m i g trip db h k e =
      let q = unlock-there m i trip db h in
      let q' = unlock_guard-there m i g trip db k in
      (ground (arith, q, q', e), ground (arith, q, q', e))

  -- An Unlock that the server has answered also settles the guard that it was for: another Unlock
  -- of the mutex and an Unlock of that guard make no call, change nothing and return nil.
  pub unlock_shared :
      (m : Mutex) (i : ℕ) (g : Guard) (trip : Trip) (db : Db) (again : Trip) (db' : Db)
      → m.holder ≡ some i
      → guard_at m.guards i ≡ some g
      → (is_nil (unlock redis m trip db).2 || is_error (unlock redis m trip db).2 lost) ≡ true
      → let m' = (unlock redis m trip db).1 in
        (unlock redis m' again db' ≡ (db', m', []))
        × (unlock_guard redis m' i again db' ≡ (db', m', []))
  unfolding unlock
  unlock_shared m i g trip db again db' h k e =
      let (answered, q) = unlock-answered m i g trip db h k e in
      let r = release (single_owner redis) g.handle trip db in
      rw q (
        refl,
        unlock_guard-finished _ i (record g { handle = r.1 }) again db'
            (guard_at-set_guard m.guards i g (record g { handle = r.1 }) k)
            (release-done (single_owner redis) g.handle trip db answered),
      )
