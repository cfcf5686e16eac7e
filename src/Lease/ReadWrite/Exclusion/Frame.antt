-- ===== src/Lease/ReadWrite/Exclusion/Frame.antt =====
-- What queueing leaves alone.
use distsync.Common.{
  ℕ, ◌<◌, ◌≤◌, ◌≡◌, ◌≢◌, refl, sym, ◌∙◌, none, some, Text, Text_discrete, [], ◌∷◌, arith,
  Option-cases, inl, inr,
}
use std.HLevel.{hedberg}
use mathlib.Core.List.{Nodup-cons, Nodup-nil, not-mem-nil, mem-singleton}
use mathlib.Core.Option.{none-ne-some}
use distsync.Redis.{StringLaws, SortedSets, SortedSetLaws}
use distsync.Lease.ReadWrite.Scripts.{RwKeys, Server, Store, place, keep_alive, purged, queued}

-- The writer's key is none of the counters.
pub record IsApart (keys : RwKeys) : Type 0 where
  pub fencing : keys.fencing ≢ keys.writer
  pub seq : keys.seq ≢ keys.writer

module _ {S Z Q H : Type 0} (redis : Server S Z Q H) where
  pub queued-sets :
      (keys : RwKeys) (t : ℕ) (s : Store S Z Q H) (member : Text) (now timeout : ℕ)
      → (queued redis keys t s member now timeout).0.sets ≡ s.sets
  unfolding queued place keep_alive purged
  queued-sets keys t s member now timeout = ground arith

module _ {Z : Type 0} (redis : SortedSets Z) (laws : SortedSetLaws redis) where
  -- A set with a member has a member to count.
  pub zcard-pos :
      (z : Z) (key m : Text) (s : ℕ) → redis.zscore z key m ≡ some s → 0 < redis.zcard z key
  zcard-pos z key m s e =
      laws.zcard_bound z key (m ∷ []) (Nodup-cons.1 (not-mem-nil, Nodup-nil))
        (λ n i. rw ((mem-singleton (hedberg Text_discrete)).0 i, e) refl)

module _ {S Z Q H : Type 0} (redis : Server S Z Q H) where
  pub record LockLaws : Type 0 where
    pub strings : StringLaws redis.strings
    pub sets : SortedSetLaws redis.sets

module _ {S Z Q H : Type 0} (redis : Server S Z Q H) (laws : LockLaws redis) (keys : RwKeys)
    (apart : IsApart keys) where
  open redis.strings use {get, incr, pexpire}

  -- A writer's key that does not exist does not come to exist by time.
  pub get-none_later :
      (db : S) (t t' : ℕ) → t ≤ t' → get db t keys.writer ≡ none → get db t' keys.writer ≡ none
  get-none_later db t t' h e = elim (Option-cases (get db t' keys.writer)) [
    | inl e' ↦ e'
    | inr (v, e') ↦
        absurd (none-ne-some v (sym e ∙ laws.strings.get_earlier db keys.writer t t' v h e'))
  ]

  pub get-queued :
      (t t' : ℕ) (s : Store S Z Q H) (member : Text) (now timeout : ℕ)
      → t ≤ t'
      → get (queued redis keys t s member now timeout).0.strings t' keys.writer
        ≡ get s.strings t' keys.writer
  unfolding queued place keep_alive purged
  get-queued t t' s member now timeout h = ground (
    arith,
    laws.strings.get-incr_other s.strings t t' keys.seq keys.writer apart.seq h,
    laws.strings.get-pexpire_other s.strings t t' keys.seq timeout keys.writer apart.seq h,
    laws.strings.get-pexpire_other (incr s.strings t keys.seq).0 t t' keys.seq timeout keys.writer
        apart.seq h,
  )
