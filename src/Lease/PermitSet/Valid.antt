-- ===== src/Lease/PermitSet/Valid.antt =====
-- The scripts and the local deadlines together: the permits that their holders take for valid.
use distsync.Common.{
  ℕ, ◌+◌, ◌*◌, ◌%◌, ◌≤◌, ◌<◌, ◌≡◌, ◌⊎◌, ◌∙◌, inl, inr, refl, ap, Bool, true, false, none, some,
  List, [], ◌∷◌, ◌++◌, Text, length, arith, All,
}
use mathlib.Core.List.{Mem, Nodup}
use distsync.Redis.{SortedSets, SortedSetLaws, is_some, above, millisecond}
use distsync.Lease.Core.{request_expiry, milliseconds}
use distsync.Lease.PermitSet.Scripts.{count_owned, sem_acquire, sem_renew, sem_release}
use distsync.Lease.PermitSet.Laws.{has, zscore-add_all, zscore-remove_all, count_owned-full}
use distsync.Lease.PermitSet.Capacity.{Call, acquires, renews, releases, call, run, run_capacity}
use distsync.Lease.PermitSet.Deadline.{valid_below_score}

-- Whether a call names a permit
unfoldable pub names : Call → Text → Bool
names (acquires now ttl tokens) m = has tokens m
names (renews now ttl tokens) m = has tokens m
names (releases tokens) m = has tokens m

-- The clock of the client that makes a call
unfoldable pub clock : Call → ℕ
clock (acquires now ttl tokens) = now
clock (renews now ttl tokens) = now
clock (releases tokens) = 0

module _ {Db : Type 0} (redis : SortedSets Db) (key : Text) (capacity : ℕ) where
  open redis use {zscore}

  -- A call that grants a new permit, or renews it, by a request that is made at `sent`
  unfoldable pub IsGrant : Db → Call → Text → (sent ttl : ℕ) → Type 0
  IsGrant db c m sent ttl =
      (tokens : List Text) × (has tokens m ≡ true)
      × (((c ≡ acquires (milliseconds sent) (milliseconds ttl) tokens)
            × (zscore db key m ≡ none)
            × (is_some
                  (sem_acquire redis db key (milliseconds sent) (milliseconds ttl) capacity
                    tokens).1
                ≡ true))
          ⊎ ((c ≡ renews (milliseconds sent) (milliseconds ttl) tokens)
              × ((sem_renew redis db key (milliseconds sent) (milliseconds ttl) tokens).1
                  ≡ some 1)))

  -- At the time `now`, after some calls, the local deadline of a permit's last grant is not over; no
  -- clock has been ahead since.
  unfoldable pub IsValid : (now : ℕ) → Db → List Call → Text → Type 0
  unfolding IsGrant
  IsValid now db calls m =
      (before : List Call) × (c : Call) × (after : List Call) × (sent : ℕ) × (ttl : ℕ) × (calls
        ≡ before ++ c ∷ after)
      × IsGrant (run redis key capacity db before) c m sent ttl
      × (millisecond ≤ sent)
      × ((ttl % millisecond ≡ 0) ⊎ (100 * millisecond ≤ ttl))
      × (now < request_expiry sent ttl)
      × All (λ d. (names d m ≡ false) × (clock d ≤ milliseconds now)) after

module _ {Db : Type 0} (redis : SortedSets Db) (laws : SortedSetLaws redis) (key : Text)
    (capacity : ℕ) where
  open redis use {zscore, zcard, zremrangebyscore}

  IsGrant-score :
      (db : Db) (c : Call) (m : Text) (sent ttl : ℕ)
      → IsGrant redis key capacity db c m sent ttl
      → zscore (call redis key capacity db c) key m ≡ some (milliseconds sent + milliseconds ttl)
  unfolding IsGrant call sem_acquire sem_renew
  IsGrant-score db c m sent ttl (tokens, i, inl (e, new, granted)) =
      let (now, life) : ℕ × ℕ = (milliseconds sent, milliseconds ttl) in
      let d = zremrangebyscore db key now in
      let gone : zscore d key m ≡ none =
        laws.zscore-zremrangebyscore db key now m ∙ ap (above now) new in
      let added = zscore-add_all redis laws d key (now + life) tokens m in
      let full = λ (q : count_owned redis d key tokens ≡ length tokens).
        count_owned-full redis laws d key tokens m q i in
      rw e (ground (arith, granted, gone, added, full, i))
  IsGrant-score db c m sent ttl (tokens, i, inr (e, renewed)) =
      let (now, life) : ℕ × ℕ = (milliseconds sent, milliseconds ttl) in
      let added = zscore-add_all redis laws db key (now + life) tokens m in
      rw e (ground (arith, renewed, added, i))

  call-keeps :
      (db : Db) (c : Call) (m : Text) (s : ℕ)
      → names c m ≡ false
      → clock c < s
      → zscore db key m ≡ some s
      → zscore (call redis key capacity db c) key m ≡ some s
  unfolding names clock call sem_acquire sem_renew sem_release
  call-keeps db (acquires now ttl tokens) m s other early e =
      let d = zremrangebyscore db key now in
      let left : zscore d key m ≡ some s =
        laws.zscore-zremrangebyscore db key now m ∙ ap (above now) e ∙ ground (arith, early) in
      let added = zscore-add_all redis laws d key (now + ttl) tokens m in
      ground (arith, other, left, added)
  call-keeps db (renews now ttl tokens) m s other early e =
      ground (arith, other, e, zscore-add_all redis laws db key (now + ttl) tokens m)
  call-keeps db (releases tokens) m s other early e =
      ground (arith, other, e, zscore-remove_all redis laws db key 0 tokens m)

  run-keeps :
      (db : Db) (cs : List Call) (m : Text) (s now : ℕ)
      → now < s
      → All (λ d. (names d m ≡ false) × (clock d ≤ now)) cs
      → zscore db key m ≡ some s
      → zscore (run redis key capacity db cs) key m ≡ some s
  unfolding run
  run-keeps db [] m s now early ok e = e
  run-keeps db (c ∷ cs) m s now early ((other, le), ok) e =
      run-keeps (call redis key capacity db c) cs m s now early ok
        (call-keeps db c m s other (omega (arith, le, early)) e)

  run-++ :
      (db : Db) (cs ds : List Call)
      → run redis key capacity db (cs ++ ds)
        ≡ run redis key capacity (run redis key capacity db cs) ds
  unfolding run
  run-++ db [] ds = refl
  run-++ db (c ∷ cs) ds = run-++ (call redis key capacity db c) cs ds

  IsValid-there :
      (db : Db) (calls : List Call) (now : ℕ) (m : Text)
      → IsValid redis key capacity now db calls m
      → is_some (zscore (run redis key capacity db calls) key m) ≡ true
  unfolding IsValid run
  IsValid-there db calls now m (before, c, after, sent, ttl, e, grant, late, whole, lt, others) =
      let db' = run redis key capacity db before in
      let s = milliseconds sent + milliseconds ttl in
      let kept =
        run-keeps (call redis key capacity db' c) after m s (milliseconds now)
          (valid_below_score sent ttl now whole late lt) others
          (IsGrant-score db' c m sent ttl grant) in
      rw (e, run-++ db before (c ∷ after), kept) refl

  -- At every time, the permits that their holders take for valid by their local deadlines do not
  -- outnumber the capacity, whatever calls were made of a semaphore within it: if no call since its
  -- last grant or renewal names such a permit or has a clock ahead of that time, and timeouts are of
  -- whole milliseconds or of a tenth of a second at least.
  pub valid_capacity :
      (db : Db) (calls : List Call) (now : ℕ) (held : List Text)
      → zcard db key ≤ capacity
      → Nodup held
      → ((m : Text) → Mem m held → IsValid redis key capacity now db calls m)
      → length held ≤ capacity
  valid_capacity db calls now held within distinct valid =
      run_capacity redis laws key capacity db calls held within distinct
        (λ m i. IsValid-there db calls now m (valid m i))
