-- ===== src/Lease/SingleOwner/Invariant/Keep.antt =====
-- The renewal and release scripts keep the invariant.
use distsync.Common.{
  ℕ, ◌+◌, ◌*◌, ◌≤◌, ◌<◌, ◌≡◌, ◌≢◌, sym, ap, ◌∙◌, inl, inr, true, false, none, some, Text,
  Reply_discrete, some_eq, arith,
}
use native.Mathlib.Nat.{le_refl}
use mathlib.Core.Option.{none-ne-some}
use mathlib.Core.Bool.{false≢true}
use distsync.Redis.{Strings, StringLaws, millisecond}
use distsync.Lease.Core.{milliseconds}
use distsync.Lease.SingleOwner.System.Effects.{
  serve_renew_own, serve_renew_other, serve_release_own, serve_release_other,
}
use distsync.Lease.SingleOwner.System.{Client, World, serve_renew, serve_release}
use distsync.Lease.SingleOwner.Invariant.{
  Good, Inv, Counter, cover, Good-other, update-all, cover-le, grant_lasts,
}

module _ {Db : Type 0} (redis : Strings Db) (laws : StringLaws redis) (K F : Text)
    (ids : ℕ → Text) where
  open redis use {get, pexpire, del}

  -- A database with the same keys, but for the lock key.
  Counter-other :
      (now : ℕ) (db db' : Db) (n : ℕ)
      → ((t : ℕ) → now ≤ t → get db' t F ≡ get db t F)
      → Counter redis F now db n
      → Counter redis F now db' n
  unfolding Counter
  Counter-other now db db' n same (inl (z, e)) = inl (z, same now (omega arith) ∙ e)
  Counter-other now db db' n same (inr h) = inr (λ t le. same t le ∙ h t le)

  module _ (w : World Db) (i : ℕ) (v : Inv redis K F ids w) where
    abbrev c : Client
    c = w.clients i

    abbrev g : Good redis K F w.now w.db w.minted (ids i) c
    g = v.good i

    abbrev ms : ℕ
    ms = milliseconds c.lease.ttl

    module _ (apart : K ≢ F) (inj : (j k : ℕ) → ids j ≡ ids k → j ≡ k) where
      -- A client with a promise on the key is the one whose token it holds.
      promised :
          (j : ℕ)
          → get w.db w.now K ≡ some (ids i)
          → (w.clients j).lost ≡ false
          → w.now < cover (w.clients j)
          → j ≡ i
      promised j e a h = inj j i (some_eq (sym ((v.good j).kept a w.now (omega arith) h) ∙ e))

      renewed_db : Db
      renewed_db = pexpire w.db w.now c.lease.key ms

      renewed-get :
          get w.db w.now K ≡ some (ids i)
          → (t : ℕ) → w.now ≤ t
          → t < w.now + ms * millisecond
          → get renewed_db t K ≡ some (ids i)
      unfolding renewed_db
      renewed-get e t le lt =
          ground (arith, g.key, laws.get-pexpire_before w.db w.now t c.lease.key (ids i) ms)

      renewed-Inv : get w.db w.now K ≡ some (ids i) → Inv redis K F ids (serve_renew redis w i)
      unfolding renewed_db
      renewed-Inv e = rw (serve_renew_own redis laws w i (cc (e, g.key, g.id_eq))) (record {
        good =
            update-all (λ j. Good redis K F w.now renewed_db w.minted (ids j)) w.clients i _
              (record {
                key = g.key;
                fkey = g.fkey;
                id_eq = g.id_eq;
                timed = g.timed;
                past = λ s q. ground arith;
                kept = λ _. renewed-get e;
                within = λ a b. omega (arith, g.within a b, cover-le redis K F g);
                fence_le = g.fence_le;
                newest = λ _ f. g.newest e f;
              })
              (λ j n.
                Good-other redis K F (v.good j) (omega arith)
                  (λ a h. absurd (n (sym (promised j e a h))))
                  (λ q. absurd (
                    n (
                      inj i j (
                        some_eq (
                          sym (renewed-get e w.now (le_refl _) (grant_lasts redis K F g)) ∙ q))))));
        counter =
            Counter-other w.now w.db renewed_db w.minted
              (λ t le.
                laws.get-pexpire_other w.db w.now t c.lease.key ms F (λ q. apart (cc (q, g.key)))
                  le)
              v.counter;
      })

      lost_renewal-Inv : get w.db w.now K ≢ some (ids i) → Inv redis K F ids (serve_renew redis w i)
      lost_renewal-Inv e =
          rw (serve_renew_other redis laws w i (λ q. e (cc (q, g.key, g.id_eq)))) (record {
            good =
                update-all (λ j. Good redis K F w.now w.db w.minted (ids j)) w.clients i c g
                  (λ j _. v.good j);
            counter = v.counter;
          })

      pub renew-Inv : Inv redis K F ids (serve_renew redis w i)
      renew-Inv = elim (Reply_discrete (get w.db w.now K) (some (ids i))) [
        | yes own ↦ renewed-Inv own
        | no other ↦ lost_renewal-Inv other
      ]

      released_db : Db
      released_db = (del w.db w.now c.lease.key).0

      released-get : (t : ℕ) → w.now ≤ t → get released_db t K ≡ none
      unfolding released_db
      released-get t le = ground (arith, g.key, laws.get-del w.db w.now t c.lease.key le)

      released-Inv :
          c.lost ≡ true
          → get w.db w.now K ≡ some (ids i)
          → Inv redis K F ids (serve_release redis w i)
      unfolding released_db
      released-Inv lost e = rw (serve_release_own redis laws w i (cc (e, g.key, g.id_eq))) (record {
        good = λ j.
            Good-other redis K F (v.good j) (omega arith)
              (λ a h.
                absurd
                  (false≢true (sym a ∙ ap (λ k. (w.clients k).lost) (promised j e a h) ∙ lost)))
              (λ q. absurd (none-ne-some (ids j) (sym (released-get w.now (le_refl _)) ∙ q)));
        counter =
            Counter-other w.now w.db released_db w.minted
              (λ t le.
                laws.get-del_other w.db w.now t c.lease.key F (λ q. apart (cc (q, g.key))) le)
              v.counter;
      })

      pub release-Inv : c.lost ≡ true → Inv redis K F ids (serve_release redis w i)
      release-Inv lost = elim (Reply_discrete (get w.db w.now K) (some (ids i))) [
        | yes own ↦ released-Inv lost own
        | no other ↦ rw (serve_release_other redis laws w i (λ q. other (cc (q, g.key, g.id_eq)))) v
      ]
