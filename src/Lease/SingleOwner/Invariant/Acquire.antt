-- ===== src/Lease/SingleOwner/Invariant/Acquire.antt =====
-- The acquisition script keeps the invariant.
use distsync.Common.{
  ℕ, ◌+◌, ◌*◌, ◌≤◌, ◌<◌, ◌≡◌, ◌≢◌, refl, sym, ap, ◌∙◌, inl, inr, true, Option, none, some, Text,
  Text_discrete, Option-cases, Bool-cases, some_eq, arith, if◌then◌else◌,
}
use native.Mathlib.Nat.{add-zero, le_refl}
use mathlib.Core.Option.{none-ne-some}
use Prim.Native.Nat.{zero-le}
use distsync.Common.Decimal.{to_number-decimal}
use distsync.Redis.{Strings, StringLaws, millisecond}
use distsync.Lease.Core.{milliseconds}
use distsync.Lease.SingleOwner.Scripts.{number_in}
use distsync.Lease.SingleOwner.System.Effects.{
  reread, fresh_db, serve_acquire_own, serve_acquire_free, serve_acquire_taken,
}
use distsync.Lease.SingleOwner.System.{Client, World, serve_acquire}
use distsync.Lease.SingleOwner.Invariant.{
  Good, Inv, Counter, Good-other, update-all, cover-le, grant_lasts,
}

module _ {Db : Type 0} (redis : Strings Db) (laws : StringLaws redis) (K F : Text)
    (ids : ℕ → Text) where
  open redis use {get}

  Counter-set :
      (now : ℕ) (db : Db) (n : ℕ) (k v : Text) (ms : ℕ)
      → k ≢ F
      → Counter redis F now db n
      → Counter redis F now (redis.set_px db now k v ms) n
  unfolding Counter
  Counter-set now db n k v ms ne (inl (z, e)) =
      inl (z, laws.get-set_px_other db now now k v ms F ne (omega arith) ∙ e)
  Counter-set now db n k v ms ne (inr h) =
      inr (λ t le. laws.get-set_px_other db now t k v ms F ne le ∙ h t le)

  Counter-incr :
      (now : ℕ) (db : Db) (n : ℕ)
      → Counter redis F now db n
      → ((redis.incr db now F).1 ≡ n + 1) × Counter redis F now (redis.incr db now F).0 (n + 1)
  unfolding Counter
  Counter-incr now db n (inl (z, e)) = (
    ground (arith, laws.incr-fresh db now F),
    inr (λ t le. ground (arith, laws.get-incr_fresh db now t F)),
  )
  Counter-incr now db n (inr h) = (
    laws.incr-counter db now F n (h now (omega arith)),
    inr (λ t le. laws.get-incr_counter db now t F n le (h t le)),
  )

  Counter-reply :
      (now : ℕ) (db : Db) (n m : ℕ)
      → Counter redis F now db n
      → number_in (get db now F) ≡ some m
      → m ≡ n
  unfolding Counter
  Counter-reply now db n m (inl (z, e)) q = cc
  Counter-reply now db n m (inr h) q = ground (arith, h now (omega arith), to_number-decimal n)

  module _ (w : World Db) (i : ℕ) (v : Inv redis K F ids w) where
    abbrev c : Client
    c = w.clients i

    abbrev g : Good redis K F w.now w.db w.minted (ids i) c
    g = v.good i

    abbrev ms : ℕ
    ms = milliseconds c.lease.ttl

    reread-Good :
        (r : Option ℕ)
        → ((n : ℕ) → r ≡ some n → (n ≤ w.minted) × (c.lease.fencing ≡ true → n ≡ w.minted))
        → Good redis K F w.now w.db w.minted (ids i) (reread c r)
    reread-Good none h = g
    reread-Good (some n) h = record {
      key = g.key;
      fkey = g.fkey;
      id_eq = g.id_eq;
      timed = g.timed;
      past = g.past;
      kept = g.kept;
      within = g.within;
      fence_le = (h n refl).0;
      newest = λ _ f. (h n refl).1 f;
    }

    own_reply :
        (n : ℕ)
        → (if c.lease.fencing then number_in (get w.db w.now c.lease.fkey) else some 0) ≡ some n
        → (n ≤ w.minted) × (c.lease.fencing ≡ true → n ≡ w.minted)
    own_reply n e =
        let seen = λ (q : number_in (get w.db w.now F) ≡ some n).
          Counter-reply w.now w.db w.minted n v.counter q in
        ground (arith, seen, g.fkey)

    own-Inv : get w.db w.now K ≡ some (ids i) → Inv redis K F ids (serve_acquire redis w i)
    own-Inv e = rw (serve_acquire_own redis laws w i (cc (g.key, g.id_eq))) (record {
      good =
          update-all (λ j. Good redis K F w.now w.db w.minted (ids j)) w.clients i _
            (reread-Good _ own_reply) (λ j _. v.good j);
      counter = v.counter;
    })

    taken-Inv :
        (o : Text)
        → get w.db w.now K ≡ some o
        → o ≢ ids i
        → Inv redis K F ids (serve_acquire redis w i)
    taken-Inv o e other =
        rw (serve_acquire_taken redis laws w i o (cc (g.key)) (λ q. other (q ∙ g.id_eq))) (record {
          good =
              update-all (λ j. Good redis K F w.now w.db w.minted (ids j)) w.clients i c g
                (λ j _. v.good j);
          counter = v.counter;
        })

    abbrev granted_db : Db
    granted_db =
        if c.lease.fencing
        then (redis.incr (fresh_db redis laws w i) w.now c.lease.fkey).0
        else fresh_db redis laws w i

    abbrev granted_fence : ℕ
    granted_fence =
        if c.lease.fencing then (redis.incr (fresh_db redis laws w i) w.now c.lease.fkey).1 else 0

    abbrev granted_minted : ℕ
    granted_minted = w.minted + (if c.lease.fencing then 1 else 0)

    module _ (apart : K ≢ F) (inj : (j k : ℕ) → ids j ≡ ids k → j ≡ k) where
      granted-get :
          (t : ℕ) → w.now ≤ t → t < w.now + ms * millisecond → get granted_db t K ≡ some (ids i)
      granted-get t le lt = ground (
        arith,
        g.key,
        g.fkey,
        g.id_eq,
        laws.get-incr_other (fresh_db redis laws w i) w.now t c.lease.fkey K,
        laws.get-set_px_before w.db w.now t c.lease.key c.lease.id ms,
      )

      granted-Counter :
          (granted_fence ≤ granted_minted)
          × (c.lease.fencing ≡ true → granted_fence ≡ granted_minted)
          × Counter redis F w.now granted_db granted_minted
      granted-Counter = elim (Bool-cases c.lease.fencing) [
        | inl on ↦ rw (on, g.fkey) (omega (arith, drawn.0), λ _. drawn.0, drawn.1)
        | inr off ↦ rw (off, add-zero) (zero-le, λ e. cc, kept_counter)
      ]
        where
          kept_counter : Counter redis F w.now (fresh_db redis laws w i) w.minted
          kept_counter =
              Counter-set w.now w.db w.minted c.lease.key c.lease.id ms (λ e. apart (cc (e, g.key)))
                v.counter

          drawn :
              ((redis.incr (fresh_db redis laws w i) w.now F).1 ≡ w.minted + 1)
              × Counter redis F w.now
                  (redis.incr (fresh_db redis laws w i) w.now F).0
                  (w.minted + 1)
          drawn = Counter-incr w.now (fresh_db redis laws w i) w.minted kept_counter

      free-Inv : get w.db w.now K ≡ none → Inv redis K F ids (serve_acquire redis w i)
      free-Inv e = rw (serve_acquire_free redis laws w i (cc (g.key))) (record {
        good =
            update-all (λ j. Good redis K F w.now granted_db granted_minted (ids j)) w.clients i _
              (record {
                key = g.key;
                fkey = g.fkey;
                id_eq = g.id_eq;
                timed = g.timed;
                past = λ s q. ground arith;
                kept = λ _. granted-get;
                within = λ a b. omega (arith, g.within a b, cover-le redis K F g);
                fence_le = granted-Counter.0;
                newest = λ _. granted-Counter.1;
              })
              (λ j n.
                Good-other redis K F (v.good j) (omega arith)
                  (λ a h.
                    absurd (none-ne-some (ids j) (sym e ∙ (v.good j).kept a w.now (le_refl _) h)))
                  (λ q. absurd (
                    n (
                      inj i j (
                        some_eq
                          (sym (granted-get w.now (le_refl _) (grant_lasts redis K F g)) ∙ q))))));
        counter = granted-Counter.2;
      })

      pub acquire-Inv : Inv redis K F ids (serve_acquire redis w i)
      acquire-Inv = elim (Option-cases (get w.db w.now K)) [
        | inl free ↦ free-Inv free
        | inr (o, e) ↦ elim (Text_discrete o (ids i)) [
          | yes own ↦ own-Inv (e ∙ ap some own)
          | no other ↦ taken-Inv o e other
        ]
      ]
