-- ===== src/Lease/ReadWrite/Exclusion/Writer.antt =====
-- A granted writer excludes every other contender for as long as its lease is valid.
use distsync.Common.{
  ℕ, ◌+◌, ◌-◌, ◌*◌, ◌<◌, ◌≤◌, ◌≡◌, ◌≢◌, inl, inr, refl, sym, ap, subst, ◌∙◌, none, some, List, [],
  Text, arith, All,
}
use native.Mathlib.Nat.{le_refl}
use distsync.Redis.{millisecond}
use distsync.Lease.Core.{
  milliseconds, request_expiry, Trip, Fate, delivered, reply_lost, request_lost, Reply, arrive,
  transmit,
}
use distsync.Lease.SingleOwner.Invariant.{request_expiry_le}
use distsync.Lease.ReadWrite.Writer.{
  RwWriter, waiter_timeout, try_acquire, renewed, renew, renew_writer, rw_writer,
}
use distsync.Lease.ReadWrite.Scripts.{Server, Store, rw_write_lock, rw_read_lock}
use distsync.Lease.ReadWrite.Calls.{Call, IsOther, serve}
use distsync.Lease.ReadWrite.Lives.{Turn, IsTheirs, InOrder, trip_of, live, live-kept}
use distsync.Lease.ReadWrite.Exclusion.Frame.{IsApart, LockLaws}
use distsync.Lease.ReadWrite.Exclusion.WriterGrants.{
  write_grant-WriterHolds, locked, acquired-success, renewed_lease, renewed_late,
}
use distsync.Lease.ReadWrite.Exclusion.WriterHolds.{
  WriterHolds, serve-WriterHolds, later-WriterHolds, renewed-WriterHolds, write-refused,
  read-refused,
}

module _ {S Z Q H : Type 0} (redis : Server S Z Q H) (laws : LockLaws redis) (w : RwWriter)
    (apart : IsApart w.keys) where
  abbrev length_of : ℕ
  length_of = milliseconds w.ttl * millisecond

  -- The lease is the writer's, and ends before what the server promised at `from`.
  record Keeps (last t : ℕ) (s : Store S Z Q H) (l : RwWriter) : Type 0 where
    pub id : l.id ≡ w.id
    pub keys : l.keys ≡ w.keys
    pub ttl : l.ttl ≡ w.ttl
    pub from : ℕ
    pub past : from ≤ t
    pub holds : WriterHolds redis laws w.keys apart w.id t (from + length_of) s
    pub within : l.expires_at ≤ from + length_of

  their_turn :
      (last t : ℕ) (s : Store S Z Q H) (l : RwWriter) (c : Call)
      → Keeps last t s l
      → IsOther w.id c.kind
      → t + c.delay < l.expires_at
      → Keeps last
          (t + c.delay)
          (serve redis w.keys (t + c.delay) (milliseconds (t + c.delay - c.age)) s c.kind)
          l
  their_turn last t s l c k other lt =
      let (t', until) : ℕ × ℕ = (t + c.delay, k.from + length_of) in
      let h =
        later-WriterHolds redis laws w.keys apart w.id t until (omega (arith, lt, k.within)) s
          k.holds t' (omega arith) in
      record {
        id = k.id;
        keys = k.keys;
        ttl = k.ttl;
        from = k.from;
        past = omega (arith, k.past);
        holds =
            serve-WriterHolds redis laws w.keys apart w.id t' until (omega (arith, lt, k.within)) s
              h (milliseconds (t' - c.age)) c.kind other;
        within = k.within;
      }

  -- A renewal of the writer's that the server has run
  served_turn :
      (last t : ℕ) (s : Store S Z Q H) (l : RwWriter) (trip : Trip) (u : Store S Z Q H × Reply)
      → Keeps last t s l
      → trip.sent ≤ trip.served
      → t ≤ trip.served
      → trip.served < l.expires_at
      → u.0 ≡ (renew_writer redis l.keys l.id (milliseconds l.ttl) s trip.served).0
      → let r = renewed redis l trip u in Keeps trip.sent trip.served r.0 r.1
  served_turn last t s l trip u k sent le lt e =
      let (t', until) : ℕ × ℕ = (trip.served, k.from + length_of) in
      let h =
        later-WriterHolds redis laws w.keys apart w.id t until (omega (arith, le, lt, k.within)) s
          k.holds t' le in
      let h' =
        renewed-WriterHolds redis laws w.keys apart w.id t' until (omega (arith, lt, k.within)) s h
          (milliseconds w.ttl) in
      let (db, i, ks, d, x) = renewed_lease redis l trip u in
      record {
        id = i ∙ k.id;
        keys = ks ∙ k.keys;
        ttl = d ∙ k.ttl;
        from = t';
        past = le_refl _;
        holds =
            subst (WriterHolds redis laws w.keys apart w.id t' (t' + length_of))
              (sym (db ∙ e ∙ cc (k.id, k.keys, k.ttl))) h';
        within = elim x [
          | inl kept ↦ omega (arith, kept, k.within, k.past, le)
          | inr new ↦ omega (
            arith,
            new ∙ ap (request_expiry trip.sent) k.ttl,
            request_expiry_le trip.sent t' w.ttl sent,
          )
        ];
      }

  -- What comes back of the writer's request to renew
  abbrev ran : RwWriter → Trip → Store S Z Q H → Store S Z Q H × Reply
  ran l trip s = transmit trip (renew_writer redis l.keys l.id (milliseconds l.ttl)) s

  our_turn :
      (last t : ℕ) (s : Store S Z Q H) (l : RwWriter) (delay age wait : ℕ) (fate : Fate)
      → Keeps last t s l
      → t + delay < l.expires_at
      → let r = renew redis l (trip_of (t + delay) age wait fate) s in
        Keeps (t + delay - age) (t + delay) r.0 r.1
  unfolding renew transmit arrive
  our_turn last t s l delay age wait delivered k lt =
      let trip = trip_of (t + delay) age wait delivered in
      served_turn last t s l trip (ran l trip s) k (omega arith) (omega arith) lt refl
  our_turn last t s l delay age wait reply_lost k lt =
      let trip = trip_of (t + delay) age wait reply_lost in
      served_turn last t s l trip (ran l trip s) k (omega arith) (omega arith) lt refl
  our_turn last t s l delay age wait request_lost k lt = record {
    id = k.id;
    keys = k.keys;
    ttl = k.ttl;
    from = k.from;
    past = omega (arith, k.past);
    holds =
        later-WriterHolds redis laws w.keys apart w.id t (k.from + length_of)
          (omega (arith, lt, k.within)) s k.holds (t + delay) (omega arith);
    within = k.within;
  }

  granted-Keeps :
      (trip cleanup : Trip) (s : Store S Z Q H)
      → trip.sent ≤ trip.served
      → redis.strings.get s.strings trip.served w.keys.writer ≢ some w.id
      → let o = try_acquire redis w trip cleanup s in o.3 ≡ [] → Keeps trip.sent trip.served o.0 o.1
  unfolding try_acquire transmit
  granted-Keeps trip cleanup s sent fresh ok =
      let (n, granted, db, lease) =
        acquired-success redis w trip cleanup (locked redis w trip s) s ok in
      let h =
        write_grant-WriterHolds redis laws w.keys apart trip.served s w.id (milliseconds w.ttl)
          (milliseconds trip.sent) (waiter_timeout w.ttl) n fresh granted in
      rw (db, lease)
        (record {
          id = refl;
          keys = refl;
          ttl = refl;
          from = trip.served;
          past = le_refl _;
          holds = h;
          within = request_expiry_le trip.sent trip.served w.ttl sent;
        })

  -- A writer that was granted the lock, and had not asked for it before, is alone for as long as it
  -- takes its lease for valid, its renewals included: whatever the other clients ask meanwhile, with
  -- any timeouts and with clocks that are not ahead of the server's, and whatever becomes of the
  -- renewals, which it makes one after the other, none of the others is granted the lock, for writing
  -- or for reading.
  pub writer_excludes :
      (trip cleanup : Trip) (s : Store S Z Q H) (turns : List Turn)
      → trip.sent ≤ trip.served
      → redis.strings.get s.strings trip.served w.keys.writer ≢ some w.id
      → (try_acquire redis w trip cleanup s).3 ≡ []
      → InOrder trip.sent trip.served turns
      → All (IsTheirs w.id) turns
      → (let o = try_acquire redis w trip cleanup s in
          let (t, s', w') = live redis w.keys (rw_writer redis) trip.served o.0 o.1 turns in
          t < w'.expires_at)
      → (token : Text) (ttl now timeout : ℕ) → token ≢ w.id
      → let o = try_acquire redis w trip cleanup s in
        let (t, s', w') = live redis w.keys (rw_writer redis) trip.served o.0 o.1 turns in
        ((rw_write_lock redis w.keys t s' token ttl now timeout).1 ≡ none)
        × ((rw_read_lock redis w.keys t s' token ttl now timeout).1 ≡ none)
  unfolding rw_writer renew
  writer_excludes trip cleanup s turns sent fresh ok in_order others valid token ttl now timeout
        ne =
      let o = try_acquire redis w trip cleanup s in
      let (t, s', w') = live redis w.keys (rw_writer redis) trip.served o.0 o.1 turns in
      let (last, k) =
        live-kept redis w.keys (rw_writer redis)
          (λ l trip' s' le. renewed_late redis l trip' (ran l trip' s') le) Keeps w.id their_turn
          (λ last t s l delay age wait fate k _ lt. our_turn last t s l delay age wait fate k lt)
          trip.sent trip.served o.0 o.1 turns (granted-Keeps trip cleanup s sent fresh ok) in_order
          others valid in
      let lt : t < k.from + length_of = omega (arith, valid, k.within) in
      (
        ap (λ u. u.1)
            (write-refused redis laws w.keys apart w.id t _ lt s' k.holds token ttl now timeout ne),
        read-refused redis laws w.keys apart w.id t _ lt s' k.holds token ttl now timeout,
      )
