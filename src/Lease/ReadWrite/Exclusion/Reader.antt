-- ===== src/Lease/ReadWrite/Exclusion/Reader.antt =====
-- A granted reader bars every writer for as long as its lease is valid.
use distsync.Common.{
  ℕ, ◌+◌, ◌-◌, ◌*◌, ◌%◌, ◌<◌, ◌≤◌, ◌≡◌, ◌⊎◌, inl, inr, refl, sym, ap, subst, ◌∙◌, false, none, List,
  [], Text, arith, All,
}
use native.Mathlib.Nat.{le_refl}
use distsync.Redis.{millisecond}
use distsync.Lease.Core.{
  milliseconds, request_expiry, Trip, Fate, delivered, reply_lost, request_lost, Reply, arrive,
  transmit,
}
use distsync.Lease.PermitSet.Deadline.{valid_below_score}
use distsync.Lease.ReadWrite.Scripts.{Server, Store, is_owned, rw_write_lock}
use distsync.Lease.ReadWrite.Writer.{waiter_timeout}
use distsync.Lease.ReadWrite.Reader.{RwReader, acquire, renewed, renew, renew_reader, rw_reader}
use distsync.Lease.ReadWrite.Calls.{Call, IsOther, serve}
use distsync.Lease.ReadWrite.Lives.{Turn, IsTheirs, InOrder, trip_of, live, live-kept}
use distsync.Lease.ReadWrite.Exclusion.Frame.{IsApart, LockLaws}
use distsync.Lease.ReadWrite.Exclusion.ReaderGrants.{
  read_grant-ReaderHolds, locked, acquired-success, renewed_lease, renewed_late,
}
use distsync.Lease.ReadWrite.Exclusion.ReaderHolds.{
  ReaderHolds, serve-ReaderHolds, later-ReaderHolds, extended-ReaderHolds, write-barred,
}

before_score :
    (t t' age score : ℕ) → t ≤ t' → milliseconds t' < score → milliseconds (t - age) < score
unfolding milliseconds
before_score t t' age score le lt = omega (arith, le, lt)

module _ {S Z Q H : Type 0} (redis : Server S Z Q H) (laws : LockLaws redis) (r : RwReader)
    (apart : IsApart r.keys) (even : (r.ttl % millisecond ≡ 0) ⊎ (100 * millisecond ≤ r.ttl)) where
  -- The lease is the reader's, and its deadline comes before its score, which is not above what its
  -- last request asked for.
  record Keeps (last t : ℕ) (s : Store S Z Q H) (l : RwReader) : Type 0 where
    pub id : l.id ≡ r.id
    pub keys : l.keys ≡ r.keys
    pub ttl : l.ttl ≡ r.ttl
    pub score : ℕ
    pub epoch : millisecond ≤ last
    pub asked : score ≤ milliseconds last + milliseconds r.ttl
    pub holds : ReaderHolds redis laws r.keys apart r.id score t s
    pub within : (t' : ℕ) → t' < l.expires_at → milliseconds t' < score

  their_turn :
      (last t : ℕ) (s : Store S Z Q H) (l : RwReader) (c : Call)
      → Keeps last t s l
      → IsOther r.id c.kind
      → t + c.delay < l.expires_at
      → Keeps last
          (t + c.delay)
          (serve redis r.keys (t + c.delay) (milliseconds (t + c.delay - c.age)) s c.kind)
          l
  their_turn last t s l c k other lt =
      let t' = t + c.delay in
      let h = later-ReaderHolds redis laws r.keys apart r.id k.score t s k.holds t' (omega arith) in
      record {
        id = k.id;
        keys = k.keys;
        ttl = k.ttl;
        score = k.score;
        epoch = k.epoch;
        asked = k.asked;
        holds =
            serve-ReaderHolds redis laws r.keys apart r.id k.score t' s h
              (milliseconds (t' - c.age)) c.kind
              (before_score t' t' c.age k.score (le_refl _) (k.within t' lt)) other;
        within = k.within;
      }

  later_score : (a b d score : ℕ) → score ≤ milliseconds a + d → a ≤ b → score ≤ milliseconds b + d
  unfolding milliseconds
  later_score a b d score le le' = omega (arith, le, le')

  -- A renewal of the reader's that the server has run
  served_turn :
      (last t : ℕ) (s : Store S Z Q H) (l : RwReader) (trip : Trip) (u : Store S Z Q H × Reply)
      → Keeps last t s l
      → last ≤ trip.sent
      → trip.sent ≤ trip.served
      → t ≤ trip.served
      → trip.served < l.expires_at
      → u.0 ≡ (renew_reader redis l.keys l.id (milliseconds trip.sent) (milliseconds l.ttl) s).0
      → let o = renewed redis l trip u in Keeps trip.sent trip.served o.0 o.1
  served_turn last t s l trip u k after sent le lt e =
      let t' = trip.served in
      let score = milliseconds trip.sent + milliseconds r.ttl in
      let h = later-ReaderHolds redis laws r.keys apart r.id k.score t s k.holds t' le in
      let early : milliseconds (t' - (t' - trip.sent)) < k.score =
        before_score t' t' (t' - trip.sent) k.score (le_refl _) (k.within t' lt) in
      let at : t' - (t' - trip.sent) ≡ trip.sent = omega (arith, sent) in
      let h' =
        extended-ReaderHolds redis laws r.keys apart r.id k.score t' s h (milliseconds trip.sent)
          (milliseconds r.ttl) (subst (λ x. milliseconds x < k.score) at early) in
      let (db, i, ks, d, x) = renewed_lease redis l trip u in
      let above : k.score ≤ score =
        later_score last trip.sent (milliseconds r.ttl) k.score k.asked after in
      record {
        id = i ∙ k.id;
        keys = ks ∙ k.keys;
        ttl = d ∙ k.ttl;
        score = score;
        epoch = omega (arith, k.epoch, after);
        asked = le_refl _;
        holds =
            subst (ReaderHolds redis laws r.keys apart r.id score t')
              (sym (db ∙ e ∙ cc (k.id, k.keys, k.ttl))) h';
        within = λ v valid. elim x [
          | inl kept ↦ omega (arith, above, k.within v (omega (arith, valid, kept)))
          | inr new ↦
              valid_below_score trip.sent r.ttl v even (omega (arith, k.epoch, after))
                (omega (arith, valid, new ∙ ap (request_expiry trip.sent) k.ttl))
        ];
      }

  -- What comes back of the reader's request to renew
  abbrev ran : RwReader → Trip → Store S Z Q H → Store S Z Q H × Reply
  ran l trip s =
      transmit trip
        (λ d t. renew_reader redis l.keys l.id (milliseconds trip.sent) (milliseconds l.ttl) d) s

  our_turn :
      (last t : ℕ) (s : Store S Z Q H) (l : RwReader) (delay age wait : ℕ) (fate : Fate)
      → Keeps last t s l
      → last ≤ t + delay - age
      → t + delay < l.expires_at
      → let o = renew redis l (trip_of (t + delay) age wait fate) s in
        Keeps (t + delay - age) (t + delay) o.0 o.1
  unfolding renew transmit arrive
  our_turn last t s l delay age wait delivered k after lt =
      let trip = trip_of (t + delay) age wait delivered in
      served_turn last t s l trip (ran l trip s) k after (omega arith) (omega arith) lt refl
  our_turn last t s l delay age wait reply_lost k after lt =
      let trip = trip_of (t + delay) age wait reply_lost in
      served_turn last t s l trip (ran l trip s) k after (omega arith) (omega arith) lt refl
  our_turn last t s l delay age wait request_lost k after lt = record {
    id = k.id;
    keys = k.keys;
    ttl = k.ttl;
    score = k.score;
    epoch = omega (arith, k.epoch, after);
    asked = later_score last (t + delay - age) (milliseconds r.ttl) k.score k.asked after;
    holds =
        later-ReaderHolds redis laws r.keys apart r.id k.score t s k.holds (t + delay)
          (omega arith);
    within = k.within;
  }

  granted-Keeps :
      (trip cleanup : Trip) (s : Store S Z Q H)
      → millisecond ≤ trip.sent
      → is_owned (redis.sets.zscore s.sets r.keys.readers r.id) (milliseconds trip.sent) ≡ false
      → let o = acquire redis r trip cleanup s in o.2 ≡ [] → Keeps trip.sent trip.served o.0 o.1
  unfolding acquire transmit
  granted-Keeps trip cleanup s epoch fresh ok =
      let score = milliseconds trip.sent + milliseconds r.ttl in
      let (n, granted, db, lease) =
        acquired-success redis r trip cleanup (locked redis r trip s) s ok in
      let h =
        read_grant-ReaderHolds redis laws r.keys apart trip.served s r.id (milliseconds r.ttl)
          (milliseconds trip.sent) (waiter_timeout r.ttl) n fresh granted in
      rw (db, lease)
        (record {
          id = refl;
          keys = refl;
          ttl = refl;
          score = score;
          epoch = epoch;
          asked = le_refl _;
          holds = h;
          within = λ t' valid. valid_below_score trip.sent r.ttl t' even epoch valid;
        })

  -- A reader that was granted the lock, and was not a reader already, bars the writers for as long
  -- as it takes its lease for valid, its renewals included: whatever the other clients ask meanwhile,
  -- with clocks that are not ahead of the server's, and whatever becomes of the renewals, which it
  -- makes one after the other, no client is granted the lock for writing. The timeout is of whole
  -- milliseconds, or of a tenth of a second at least.
  pub reader_excludes :
      (trip cleanup : Trip) (s : Store S Z Q H) (turns : List Turn)
      → millisecond ≤ trip.sent
      → is_owned (redis.sets.zscore s.sets r.keys.readers r.id) (milliseconds trip.sent) ≡ false
      → (acquire redis r trip cleanup s).2 ≡ []
      → InOrder trip.sent trip.served turns
      → All (IsTheirs r.id) turns
      → (let o = acquire redis r trip cleanup s in
          let (t, s', r') = live redis r.keys (rw_reader redis) trip.served o.0 o.1 turns in
          t < r'.expires_at)
      → (token : Text) (ttl age timeout : ℕ)
      → let o = acquire redis r trip cleanup s in
        let (t, s', r') = live redis r.keys (rw_reader redis) trip.served o.0 o.1 turns in
        (rw_write_lock redis r.keys t s' token ttl (milliseconds (t - age)) timeout).1 ≡ none
  unfolding rw_reader renew
  reader_excludes trip cleanup s turns epoch fresh ok in_order others valid token ttl age timeout =
      let o = acquire redis r trip cleanup s in
      let (t, s', r') = live redis r.keys (rw_reader redis) trip.served o.0 o.1 turns in
      let (last, k) =
        live-kept redis r.keys (rw_reader redis)
          (λ l trip' s' le. renewed_late redis l trip' (ran l trip' s') le) Keeps r.id their_turn
          our_turn trip.sent trip.served o.0 o.1 turns (granted-Keeps trip cleanup s epoch fresh ok)
          in_order others valid in
      write-barred redis laws r.keys apart r.id k.score t s' k.holds token ttl
        (milliseconds (t - age)) timeout
        (before_score t t age k.score (le_refl _) (k.within t valid))
