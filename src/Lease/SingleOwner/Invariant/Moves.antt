-- ===== src/Lease/SingleOwner/Invariant/Moves.antt =====
-- Time, the reading of replies and the loss of a handle keep the invariant.
use distsync.Common.{
  ℕ, ◌+◌, ◌*◌, ◌≤◌, ◌≡◌, sym, ◌∙◌, inl, inr, Bool, false, some, Text, Option-cases, ltb, arith,
}
use mathlib.Core.Option.{none-ne-some}
use distsync.Redis.{Strings, StringLaws, millisecond}
use distsync.Lease.Core.{request_expiry, milliseconds}
use distsync.Lease.SingleOwner.{SingleOwner, accept, extend}
use distsync.Lease.SingleOwner.Laws.{accept-some, extend-extended, extended_bound}
use distsync.Lease.SingleOwner.System.{Client, World, with_lease, with_grant, with_loss}
use distsync.Lease.SingleOwner.Invariant.{Good, Inv, Counter, cover, update-all, request_expiry_le}

module _ {Db : Type 0} (redis : Strings Db) (laws : StringLaws redis) (K F : Text)
    (ids : ℕ → Text) where
  open redis use {get}

  Counter-wait :
      (now d : ℕ) (db : Db) (n : ℕ) → Counter redis F now db n → Counter redis F (now + d) db n
  unfolding Counter
  Counter-wait now d db n (inl (z, e)) = elim (Option-cases (get db (now + d) F)) [
    | inl e' ↦ inl (z, e')
    | inr (v, e') ↦
        absurd (none-ne-some v (sym e ∙ laws.get_earlier db F now (now + d) v (omega arith) e'))
  ]
  Counter-wait now d db n (inr h) = inr (λ t le. h t (omega arith))

  Good-wait :
      {now minted : ℕ} {db : Db} {id : Text} {c : Client} (d : ℕ)
      → Good redis K F now db minted id c
      → Good redis K F (now + d) db minted id c
  Good-wait {now} {db} {id} d g = record {
    key = g.key;
    fkey = g.fkey;
    id_eq = g.id_eq;
    timed = g.timed;
    past = λ e s. omega (arith, g.past e s);
    kept = λ a t h h'. g.kept a t (omega arith) h';
    within = g.within;
    fence_le = g.fence_le;
    newest = λ h f. g.newest (laws.get_earlier db K now (now + d) id (omega arith) h) f;
  }

  module _ (w : World Db) (v : Inv redis K F ids w) where
    pub pass-Inv : (d : ℕ) → Inv redis K F ids (record w { now = w.now + d })
    pass-Inv d = record {
      good = λ i. Good-wait d (v.good i);
      counter = Counter-wait w.now d w.db w.minted v.counter;
    }

    -- A lease may change in its deadline only, to one that the server's promise covers.
    with_lease-Inv :
        (i : ℕ) (x : ℕ)
        → ((w.clients i).lost ≡ false → (w.clients i).recovered ≡ false → x ≤ cover (w.clients i))
        → Inv redis K F ids (with_lease redis w i (record ((w.clients i).lease) { expires_at = x }))
    with_lease-Inv i x h = record {
      good =
          update-all (λ j. Good redis K F w.now w.db w.minted (ids j)) w.clients i _
            (record {
              key = g.key;
              fkey = g.fkey;
              id_eq = g.id_eq;
              timed = g.timed;
              past = g.past;
              kept = g.kept;
              within = h;
              fence_le = g.fence_le;
              newest = g.newest;
            })
            (λ j _. v.good j);
      counter = v.counter;
    }
      where
        g : Good redis K F w.now w.db w.minted (ids i) (w.clients i)
        g = v.good i

    with_grant-Inv :
        (i : ℕ) (x : ℕ) (r : Bool)
        → (r ≡ false → x ≤ cover (w.clients i))
        → Inv redis K F ids
            (with_grant redis w i (record ((w.clients i).lease) { expires_at = x }) r)
    with_grant-Inv i x r h = record {
      good =
          update-all (λ j. Good redis K F w.now w.db w.minted (ids j)) w.clients i _
            (record {
              key = g.key;
              fkey = g.fkey;
              id_eq = g.id_eq;
              timed = g.timed;
              past = g.past;
              kept = g.kept;
              within = λ _. h;
              fence_le = g.fence_le;
              newest = g.newest;
            })
            (λ j _. v.good j);
      counter = v.counter;
    }
      where
        g : Good redis K F w.now w.db w.minted (ids i) (w.clients i)
        g = v.good i

    pub loss-Inv : (i : ℕ) → Inv redis K F ids (with_loss redis w i)
    loss-Inv i = record {
      good =
          update-all (λ j. Good redis K F w.now w.db w.minted (ids j)) w.clients i _
            (record {
              key = g.key;
              fkey = g.fkey;
              id_eq = g.id_eq;
              timed = g.timed;
              past = g.past;
              kept = λ a. cc;
              within = λ a _. cc;
              fence_le = g.fence_le;
              newest = g.newest;
            })
            (λ j _. v.good j);
      counter = v.counter;
    }
      where
        g : Good redis K F w.now w.db w.minted (ids i) (w.clients i)
        g = v.good i

    cover-served :
        (i e : ℕ)
        → (w.clients i).served ≡ some e
        → cover (w.clients i) ≡ e + milliseconds (w.clients i).lease.ttl * millisecond
    cover-served i e s = rw (cover, s)

    pub take_acquire-Inv :
        (i sent e : ℕ) (l : SingleOwner)
        → (w.clients i).served ≡ some e
        → accept (w.clients i).lease (request_expiry sent (w.clients i).lease.ttl) w.now ≡ some l
        → Inv redis K F ids (with_grant redis w i l (ltb e sent))
    take_acquire-Inv i sent e l s q =
        let c = (w.clients i).lease in
        rw ((accept-some c l (request_expiry sent c.ttl) w.now q).0) (
          with_grant-Inv i _ (ltb e sent)
            (λ h. rw (cover-served i e s) (request_expiry_le sent e c.ttl (ground (arith, h)))))

    pub take_renew-Inv :
        (i sent e : ℕ)
        → (w.clients i).served ≡ some e
        → sent ≤ e
        → Inv redis K F ids (
            with_lease redis w i
              (extend (w.clients i).lease (request_expiry sent (w.clients i).lease.ttl) w.now).0)
    take_renew-Inv i sent e s le =
        let c = (w.clients i).lease in
        rw (extend-extended c (request_expiry sent c.ttl) w.now) (
          with_lease-Inv i _ (λ a b.
            extended_bound c (request_expiry sent c.ttl) w.now (cover (w.clients i))
              ((v.good i).within a b)
              (rw (cover-served i e s) (request_expiry_le sent e c.ttl le))))
