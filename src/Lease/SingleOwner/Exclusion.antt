-- ===== src/Lease/SingleOwner/Exclusion.antt =====
-- What the leases on one lock key give to the clients of the lock: mutual exclusion and fencing.
use distsync.Lease.SingleOwner.Invariant.Acquire.{acquire-Inv}
use distsync.Lease.SingleOwner.Invariant.Keep.{renew-Inv, release-Inv}
use distsync.Lease.SingleOwner.Invariant.Moves.{
  pass-Inv, take_acquire-Inv, take_renew-Inv, loss-Inv,
}
use distsync.Common.{
  ℕ, ◌≤◌, ◌<◌, ◌≡◌, ◌≢◌, refl, sym, ◌∙◌, inl, true, false, none, some, Text, some_eq, arith,
}
use mathlib.Core.Option.{none-ne-some}
use distsync.Redis.{Strings, StringLaws}
use distsync.Lease.Core.{milliseconds}
use distsync.Lease.SingleOwner.System.{
  World, Step, Reach, here, next, pass, serves_acquire, takes_acquire, serves_renew, takes_renew,
  loses, serves_release,
}
use distsync.Lease.SingleOwner.Invariant.{Inv, Counter, cover, Holds}

-- A lock that nobody has taken yet, and leases on it: one key and one fencing counter, a fresh token
-- for each lease, and timeouts of a millisecond at least.
pub record IsUnused {Db : Type 0} (redis : Strings Db) (K F : Text) (w : World Db) : Type 0 where
  pub apart : K ≢ F
  pub tokens : (i j : ℕ) → (w.clients i).lease.id ≡ (w.clients j).lease.id → i ≡ j
  pub key : (i : ℕ) → (w.clients i).lease.key ≡ K
  pub fkey : (i : ℕ) → (w.clients i).lease.fkey ≡ F
  pub timed : (i : ℕ) → 0 < milliseconds (w.clients i).lease.ttl
  pub unserved : (i : ℕ) → (w.clients i).served ≡ none
  pub unheld : (i : ℕ) → (w.clients i).lease.expires_at ≡ 0
  pub unfenced : (i : ℕ) → (w.clients i).fence ≡ 0
  pub free : redis.get w.db w.now K ≡ none
  pub no_counter : redis.get w.db w.now F ≡ none
  pub none_minted : w.minted ≡ 0

module _ {Db : Type 0} (redis : Strings Db) (laws : StringLaws redis) (K F : Text) where
  ids : World Db → ℕ → Text
  ids w i = (w.clients i).lease.id

  init-Inv : (w : World Db) → IsUnused redis K F w → Inv redis K F (ids w) w
  unfolding ids Counter
  init-Inv w u = record {
    good = λ i. record {
      key = u.key i;
      fkey = u.fkey i;
      id_eq = refl;
      timed = u.timed i;
      past = λ e q. absurd (none-ne-some e (sym (u.unserved i) ∙ q));
      kept = λ _ t h h'. absurd (uncovered i t h');
      within = λ _ _. omega (arith, u.unheld i);
      fence_le = omega (arith, u.unfenced i);
      newest = λ h _. absurd (none-ne-some _ (sym u.free ∙ h));
    };
    counter = inl (u.none_minted, u.no_counter);
  }
    where
      uncovered : (i t : ℕ) → ¬ (t < cover (w.clients i))
      uncovered i t = rw (cover, u.unserved i) (λ h. omega arith)

  Step-Inv :
      {w w' : World Db} (names : ℕ → Text)
      → K ≢ F
      → ((i j : ℕ) → names i ≡ names j → i ≡ j)
      → Step redis w w'
      → Inv redis K F names w
      → Inv redis K F names w'
  Step-Inv {w} names apart inj (pass d) v = pass-Inv redis laws K F names w v d
  Step-Inv {w} names apart inj (serves_acquire i) v =
      acquire-Inv redis laws K F names w i v apart inj
  Step-Inv {w} names apart inj (takes_acquire i sent e l s le q) v =
      take_acquire-Inv redis laws K F names w v i sent e l s q
  Step-Inv {w} names apart inj (serves_renew i) v = renew-Inv redis laws K F names w i v apart inj
  Step-Inv {w} names apart inj (takes_renew i sent e s le) v =
      take_renew-Inv redis laws K F names w v i sent e s le
  Step-Inv {w} names apart inj (loses i) v = loss-Inv redis laws K F names w v i
  Step-Inv {w} names apart inj (serves_release i lost) v =
      release-Inv redis laws K F names w i v apart inj lost

  Reach-Inv : {w w' : World Db} → IsUnused redis K F w → Reach redis w w' → Inv redis K F (ids w) w'
  unfolding ids
  Reach-Inv {w} u here = init-Inv w u
  Reach-Inv {w} u (next r st) = Step-Inv (ids w) u.apart u.tokens st (Reach-Inv u r)

  -- While a client holds by a grant that it did not recover, the lock key holds its token.
  Holds-get :
      {w w' : World Db}
      → IsUnused redis K F w
      → Reach redis w w'
      → (i : ℕ) → (w'.clients i).recovered ≡ false
      → Holds w' i
      → redis.get w'.db w'.now K ≡ some (ids w i)
  Holds-get {w} {w'} u r i first h =
      let v = (Reach-Inv u r).good i in
      v.kept h.0 w'.now (omega arith) (omega (arith, v.within h.0 first, h.1))

  -- Mutual exclusion. Whatever the scheduling of the scripts, the delays and losses of replies and
  -- the timeouts, from a lock that nobody has taken two clients never hold it at the same time, if
  -- neither holds it by a grant that it recovered: by the reply to an acquisition that was requested
  -- after the server had set the timeout for an earlier one, whose reply was not read.
  pub mutual_exclusion :
      {w w' : World Db}
      → IsUnused redis K F w
      → Reach redis w w'
      → (i j : ℕ) → (w'.clients i).recovered ≡ false
      → (w'.clients j).recovered ≡ false
      → Holds w' i
      → Holds w' j
      → i ≡ j
  unfolding ids
  mutual_exclusion u r i j fi fj hi hj =
      u.tokens i j (some_eq (sym (Holds-get u r i fi hi) ∙ Holds-get u r j fj hj))

  -- Fencing. While a client with fencing holds the lock, by a grant that it did not recover as
  -- above, no client was ever given a larger token, and its own is the largest that was minted.
  pub holder_fence :
      {w w' : World Db}
      → IsUnused redis K F w
      → Reach redis w w'
      → (i j : ℕ) → (w'.clients i).recovered ≡ false
      → Holds w' i
      → (w'.clients i).lease.fencing ≡ true
      → ((w'.clients i).fence ≡ w'.minted) × ((w'.clients j).fence ≤ (w'.clients i).fence)
  holder_fence u r i j first h on =
      let v = Reach-Inv u r in
      let e = (v.good i).newest (Holds-get u r i first h) on in
      (e, omega (arith, e, (v.good j).fence_le))
