-- ===== src/Lease/SingleOwner/Methods.antt =====
-- The methods of `SingleOwner`, call by call, whatever becomes of the request and its reply.
use distsync.Common.{
  ℕ, ◌≤◌, ◌≡◌, ◌≢◌, refl, sym, ap, ◌∙◌, ◌⊎◌, inl, inr, true, false, Option, none, some, [], ◌∷◌,
  Text, Text_discrete, arith, Option-cases,
}
use mathlib.Core.Option.{none-ne-some}
use distsync.Redis.{Strings, StringLaws}
use distsync.Lease.Core.{
  Error, busy, lost, transport, is_error, Trip, Fate, delivered, reply_lost, request_lost, Reply,
  int, nil, failed, reply_of, arrive, transmit, milliseconds,
}
use distsync.Lease.SingleOwner.{
  SingleOwner, Outcome, release, released, settled, acquired, try_acquire, fence_flag, held,
}
use distsync.Lease.SingleOwner.Scripts.{
  single_acquire, single_release, mint, single_release, number_in,
}
use distsync.Lease.SingleOwner.Laws.{
  single_acquire_own, single_acquire_free, single_acquire_taken, single_release_own,
  single_release_other,
}

module _ {Db : Type 0} (redis : Strings Db) (laws : StringLaws redis) where
  open redis use {get, set_px, incr, del}

  abbrev pub outcome : Db → SingleOwner → Error → Outcome Db Unit
  outcome db l e = record { db = db; lease = l; value = tt; error = e }

  pub release_delivered_own :
      (l : SingleOwner) (trip : Trip) (db : Db)
      → get db trip.served l.key ≡ some l.id
      → trip.fate ≡ delivered
      → release redis l trip db
        ≡ outcome (del db trip.served l.key).0 (record l { expires_at = 0 }) []
  unfolding release transmit
  release_delivered_own l trip db e f =
      rw (f, arrive, single_release_own redis laws db trip.served l.key l.id e)

  release_delivered_stale :
      (l : SingleOwner) (trip : Trip) (db : Db)
      → get db trip.served l.key ≢ some l.id
      → trip.fate ≡ delivered
      → release redis l trip db ≡ outcome db l (lost ∷ [])
  unfolding release transmit
  release_delivered_stale l trip db e f =
      rw (f, arrive, single_release_other redis laws db trip.served l.key l.id e)

  -- A release whose request finds another token, or none, in the lock key changes nothing, and says
  -- so: the lease was lost, or the answer did not arrive.
  pub release_stale :
      (l : SingleOwner) (trip : Trip) (db : Db)
      → get db trip.served l.key ≢ some l.id
      → ((release redis l trip db).db ≡ db)
        × ((release redis l trip db).lease ≡ l)
        × ((trip.fate ≡ delivered → (release redis l trip db).error ≡ lost ∷ [])
            × (trip.fate ≢ delivered → (release redis l trip db).error ≡ transport ∷ []))
  unfolding release transmit
  release_stale l trip db ne =
      let e = single_release_other redis laws db trip.served l.key l.id ne in ground (arith, e)

  -- A release that the owner's request reaches frees the key for good, and clears the local deadline
  -- if the answer arrives; asked again, the server answers that the lease was lost.
  pub release_owned :
      (l : SingleOwner) (trip again : Trip) (db : Db)
      → get db trip.served l.key ≡ some l.id
      → trip.fate ≡ delivered
      → again.fate ≡ delivered
      → trip.served ≤ again.served
      → let r = release redis l trip db in
        (r.error ≡ [])
        × (r.lease.expires_at ≡ 0)
        × ((t : ℕ) → trip.served ≤ t → get r.db t l.key ≡ none)
        × ((release redis r.lease again r.db).error ≡ lost ∷ [])
  unfolding release transmit
  release_owned l trip again db e f f' le =
      let gone = laws.get-del db trip.served in
      rw (release_delivered_own l trip db e f) (
        refl,
        refl,
        λ t h. gone t l.key h,
        ap (λ (r : Outcome Db Unit). r.error)
            (release_delivered_stale (record l { expires_at = 0 }) again _
              (λ q. none-ne-some l.id (sym (gone again.served l.key le) ∙ q)) f'),
      )

  -- The acquisition's script at this lease.
  abbrev pub ask : SingleOwner → ℕ → Db → Db × Option ℕ
  ask l now db = single_acquire redis db now l.key l.fkey l.id (milliseconds l.ttl) (fence_flag l)

  abbrev pub grant : SingleOwner → ℕ → Db → Db × Option ℕ
  grant l now db =
      mint redis (set_px db now l.key l.id (milliseconds l.ttl)) now l.fkey (fence_flag l)

  pub acquire_delivered :
      (l : SingleOwner) (trip cleanup : Trip) (db : Db)
      → trip.fate ≡ delivered
      → try_acquire redis l trip cleanup db
        ≡ acquired redis l trip cleanup
            ((ask l trip.served db).0, reply_of (ask l trip.served db).1)
  unfolding try_acquire transmit
  acquire_delivered l trip cleanup db f = rw (f, arrive)

  released-not_busy :
      (l : SingleOwner) (p : Db × Reply) → is_error (released redis l p).error busy ≡ false
  unfolding released is_error
  released-not_busy l (db, failed) = refl
  released-not_busy l (db, nil) = refl
  released-not_busy l (db, int n) = ground arith

  settled-not_busy :
      (l : SingleOwner) (cleanup : Trip) (db : Db) (n : ℕ) (o : Option SingleOwner)
      → is_error (settled redis l cleanup db n o).error busy ≡ false
  unfolding settled release is_error
  settled-not_busy l cleanup db n none =
      released-not_busy l (transmit cleanup (λ d now. single_release redis d now l.key l.id) db)
  settled-not_busy l cleanup db n (some l') = refl

  acquired-busy :
      (l : SingleOwner) (trip cleanup : Trip) (p : Db × Reply)
      → is_error (acquired redis l trip cleanup p).error busy ≡ true
      → (p.1 ≡ nil)
        × ((acquired redis l trip cleanup p).db ≡ p.0)
        × ((acquired redis l trip cleanup p).lease ≡ l)
  unfolding acquired is_error
  acquired-busy l trip cleanup (db, failed) b = cc
  acquired-busy l trip cleanup (db, nil) b = (refl, refl, refl)
  acquired-busy l trip cleanup (db, int n) b = cc (settled-not_busy l cleanup db n _)

  arrive-nil :
      (f : Fate) (db : Db) (r : Db × Option ℕ)
      → (arrive f db r).1 ≡ nil
      → (f ≡ delivered) × (r.1 ≡ none) × ((arrive f db r).0 ≡ r.0)
  unfolding arrive
  arrive-nil delivered db (db', none) e = (refl, refl, refl)
  arrive-nil delivered db (db', some n) e = cc
  arrive-nil reply_lost db r e = cc
  arrive-nil request_lost db r e = cc

  mint-some : (db : Db) (now : ℕ) (f flag : Text) → (mint redis db now f flag).1 ≢ none
  unfolding mint
  mint-some db now f flag e = ground arith

  ask-none :
      (l : SingleOwner) (now : ℕ) (db : Db)
      → (ask l now db).1 ≡ none
      → ((o : Text) × (get db now l.key ≡ some o)
          × ((o ≢ l.id) ⊎ (number_in (get db now l.fkey) ≡ none)))
        × ((ask l now db).0 ≡ db)
  ask-none l now db e = elim (Option-cases (get db now l.key)) [
    | inl free ↦ absurd (
        mint-some _ now l.fkey (fence_flag l) (
          ap (λ (r : Db × Option ℕ). r.1)
            (sym (
              single_acquire_free redis laws db now l.key l.fkey l.id (milliseconds l.ttl)
                (fence_flag l) free))
          ∙ e))
    | inr (o, held) ↦ elim (Text_discrete o l.id) [
      | yes own ↦
          let s =
            single_acquire_own redis laws db now l.key l.fkey l.id (milliseconds l.ttl)
              (fence_flag l) (held ∙ ap some own) in
          ((o, held, inr (ground (arith, s))), ap (λ (r : Db × Option ℕ). r.0) s)
      | no other ↦ (
        (o, held, inl other),
        ap (λ (r : Db × Option ℕ). r.0)
            (single_acquire_taken redis laws db now l.key l.fkey l.id o (milliseconds l.ttl)
              (fence_flag l) held other),
      )
    ]
  ]

  -- Busy means that the server answered, and that the lock key held another token at that time, or
  -- the lease's own beside a fencing counter that is no number. So an outage is never taken for
  -- contention. Nothing was changed.
  pub busy_means_held :
      (l : SingleOwner) (trip cleanup : Trip) (db : Db)
      → is_error (try_acquire redis l trip cleanup db).error busy ≡ true
      → (trip.fate ≡ delivered)
        × ((o : Text) × (get db trip.served l.key ≡ some o)
            × ((o ≢ l.id) ⊎ (number_in (get db trip.served l.fkey) ≡ none)))
        × ((try_acquire redis l trip cleanup db).db ≡ db)
        × ((try_acquire redis l trip cleanup db).lease ≡ l)
  unfolding try_acquire transmit is_error
  busy_means_held l trip cleanup db b =
      let (n, d, k) = acquired-busy l trip cleanup _ b in
      let (f, r, d') = arrive-nil trip.fate db (ask l trip.served db) n in
      let (held, d'') = ask-none l trip.served db r in (f, held, d ∙ d' ∙ d'', k)
