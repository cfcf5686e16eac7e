-- ===== src/Lease/SingleOwner/Invariant.antt =====
-- The invariant of the system of leases on one lock key: what the server keeps for each client.
pub mod Acquire
pub mod Keep
pub mod Moves
use distsync.Common.{
  ℕ, suc, ◌+◌, ◌-◌, ◌*◌, ◌/◌, ◌≤◌, ◌<◌, ◌≡◌, ◌≢◌, refl, sym, subst, ◌∙◌, ◌⊎◌, inl, inr, Bool, true,
  false, Option, none, some, ite, if_pos, if_neg, Text, Reply_discrete, Text_discrete, ℕ_discrete,
  update, Option-cases, Bool-cases, arith, leb, ltb, ◌==◌, if◌then◌else◌, dec_lt, [], ◌∷◌,
}
use native.Mathlib.Nat.{add-zero}
use Prim.Native.Nat.{zero-le}
use distsync.Common.Decimal.{decimal, to_number-decimal}
use distsync.Redis.{Strings, StringLaws, millisecond}
use distsync.Lease.Core.{request_expiry, milliseconds}
use distsync.Lease.SingleOwner.{SingleOwner, fence_flag, accept, extend}
use distsync.Lease.SingleOwner.Scripts.{number_in}
use distsync.Lease.SingleOwner.System.Effects.{
  reread, fresh_db, serve_acquire_own, serve_acquire_free, serve_acquire_taken, serve_renew_own,
  serve_renew_other, serve_release_own, serve_release_other,
}
use distsync.Lease.SingleOwner.System.{
  Client, World, Step, Reach, here, next, pass, serves_acquire, takes_acquire, serves_renew,
  takes_renew, loses, serves_release, serve_acquire, serve_renew, serve_release, with_lease,
  with_loss,
}

-- The critical section may run: not lost, and before the local deadline.
abbrev pub Holds : {Db : Type 0} → World Db → ℕ → Type 0
Holds w i = ((w.clients i).lost ≡ false) × (w.now < (w.clients i).lease.expires_at)

-- Until when the server keeps the lock key for a client, by its last reply.
abbrev pub cover : Client → ℕ
cover c = elim c.served [ none ↦ 0 | some e ↦ e + milliseconds c.lease.ttl * millisecond ]

-- A local deadline never outlives the timeout that the server set no earlier than the request.
pub request_expiry_le :
    (sent e ttl : ℕ) → sent ≤ e → request_expiry sent ttl ≤ e + milliseconds ttl * millisecond
unfolding request_expiry milliseconds
request_expiry_le sent e ttl h = omega arith

pub update-all :
    (P : ℕ → Client → Type 0) (f : ℕ → Client) (i : ℕ) (c : Client)
    → P i c
    → ((j : ℕ) → i ≢ j → P j (f j))
    → (j : ℕ) → P j (update f i c j)
update-all P f i c at elsewhere j = elim (ℕ_discrete i j) [
  | yes p ↦ rw (if_pos _ p) (subst (λ k. P k c) p at)
  | no n ↦ rw (if_neg _ n) (elsewhere j n)
]

-- The counter holds what was minted, for good.
unfoldable pub Counter : {Db : Type 0} → Strings Db → Text → ℕ → Db → ℕ → Type 0
Counter redis F now db n =
    ((n ≡ 0) × (redis.get db now F ≡ none))
    ⊎ ((t : ℕ) → now ≤ t → redis.get db t F ≡ some (decimal n))

module _ {Db : Type 0} (redis : Strings Db) (K F : Text) where
  open redis use {get}

  pub record Good (now : ℕ) (db : Db) (minted : ℕ) (id : Text) (c : Client) : Type 0 where
    pub key : c.lease.key ≡ K
    pub fkey : c.lease.fkey ≡ F
    pub id_eq : c.lease.id ≡ id
    pub timed : 0 < milliseconds c.lease.ttl
    pub past : (e : ℕ) → c.served ≡ some e → e ≤ now
    pub kept : c.lost ≡ false → (t : ℕ) → now ≤ t → t < cover c → get db t K ≡ some id
    pub within : c.lost ≡ false → c.recovered ≡ false → c.lease.expires_at ≤ cover c
    pub fence_le : c.fence ≤ minted
    pub newest : get db now K ≡ some id → c.lease.fencing ≡ true → c.fence ≡ minted

  module _ {now minted : ℕ} {db : Db} {id : Text} {c : Client} (g : Good now db minted id c) where
    -- A new timeout ends no earlier than the last one.
    pub cover-le : cover c ≤ now + milliseconds c.lease.ttl * millisecond
    cover-le = elim (Option-cases c.served) [
      | inl e ↦ rw (e, cover) (omega arith)
      | inr (s, e) ↦ rw (e, cover) (omega (arith, g.past s e))
    ]

    pub grant_lasts : now < now + milliseconds c.lease.ttl * millisecond
    grant_lasts = grind (arith, g.timed)

  -- What a script does to a client whose promise it keeps, and to which it does not give the key.
  pub Good-other :
      {now minted minted' : ℕ} {db db' : Db} {id : Text} {c : Client}
      → Good now db minted id c
      → minted ≤ minted'
      → (c.lost ≡ false → now < cover c → (t : ℕ) → now ≤ t → t < cover c → get db' t K ≡ some id)
      → (get db' now K ≡ some id → (minted' ≡ minted) × (get db now K ≡ some id))
      → Good now db' minted' id c
  Good-other g le keeps gives = record {
    key = g.key;
    fkey = g.fkey;
    id_eq = g.id_eq;
    timed = g.timed;
    past = g.past;
    kept = λ a t h h'. keeps a (omega arith) t h h';
    within = g.within;
    fence_le = omega (arith, g.fence_le);
    newest = λ h f. g.newest (gives h).1 f ∙ sym (gives h).0;
  }

module _ {Db : Type 0} (redis : Strings Db) (K F : Text) (ids : ℕ → Text) where
  pub record Inv (w : World Db) : Type 0 where
    pub good : (i : ℕ) → Good redis K F w.now w.db w.minted (ids i) (w.clients i)
    pub counter : Counter redis F w.now w.db w.minted
