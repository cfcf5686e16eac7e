-- ===== src/Lease/SingleOwner/Grants.antt =====
-- What a granted acquisition leaves, in time, late and repeated.
use distsync.Lease.SingleOwner.Methods.{ask, grant, acquire_delivered}
use distsync.Lease.SingleOwner.Invariant.{request_expiry_le}
use distsync.Common.{
  ℕ, ◌+◌, ◌*◌, ◌<◌, ◌≤◌, ◌≡◌, ◌≢◌, refl, sym, ◌∙◌, true, none, some, [], ◌∷◌, arith,
}
use distsync.Common.Decimal.{decimal, to_number-decimal}
use distsync.Redis.{Strings, StringLaws, millisecond}
use distsync.Lease.Core.{
  transport, Trip, delivered, reply_lost, int, arrive, transmit, request_expiry, milliseconds,
}
use distsync.Lease.SingleOwner.{SingleOwner, accept, settled, acquired, try_acquire, fence_flag}
use distsync.Lease.SingleOwner.Scripts.{mint}
use distsync.Lease.SingleOwner.Laws.{single_acquire_own, single_acquire_free, get-mint}

module _ {Db : Type 0} (redis : Strings Db) (laws : StringLaws redis) where
  open redis use {get, set_px, incr, del}

  module _ (l : SingleOwner) (apart : l.key ≢ l.fkey) where
    -- The key after a grant.
    pub get-grant :
        (now t : ℕ) (db : Db)
        → now ≤ t
        → t < now + milliseconds l.ttl * millisecond
        → get (grant redis laws l now db).0 t l.key ≡ some l.id
    get-grant now t db le lt =
        get-mint redis laws _ now t l.key l.fkey (fence_flag l) (λ e. apart (sym e)) le
        ∙ laws.get-set_px_before db now t l.key l.id (milliseconds l.ttl) le lt

    pub get-grant_after :
        (now t : ℕ) (db : Db)
        → now + milliseconds l.ttl * millisecond + millisecond ≤ t
        → get (grant redis laws l now db).0 t l.key ≡ none
    get-grant_after now t db le =
        get-mint redis laws _ now t l.key l.fkey (fence_flag l) (λ e. apart (sym e)) (omega arith)
        ∙ laws.get-set_px_after db now t l.key l.id (milliseconds l.ttl) le

    -- The fence that a grant mints, and the counter after it.
    grant-counter :
        (now t n : ℕ) (db : Db)
        → l.fencing ≡ true
        → now ≤ t
        → get db now l.fkey ≡ some (decimal n)
        → get db t l.fkey ≡ some (decimal n)
        → ((grant redis laws l now db).1 ≡ some (n + 1))
          × (get (grant redis laws l now db).0 t l.fkey ≡ some (decimal (n + 1)))
    unfolding mint fence_flag
    grant-counter now t n db on le e e' =
        let d = set_px db now l.key l.id (milliseconds l.ttl) in
        let same = λ (u : ℕ) (h : now ≤ u).
          laws.get-set_px_other db now u l.key l.id (milliseconds l.ttl) l.fkey apart h in
        ground (
          arith,
          laws.incr-counter d now l.fkey n (same now (omega arith) ∙ e),
          laws.get-incr_counter d now t l.fkey n le (same t le ∙ e'),
        )

    ask-free :
        (now : ℕ) (db : Db)
        → get db now l.key ≡ none
        → ask redis laws l now db ≡ grant redis laws l now db
    ask-free now db e =
        single_acquire_free redis laws db now l.key l.fkey l.id (milliseconds l.ttl) (fence_flag l)
          e

    accept-in_time :
        (m : SingleOwner) (deadline now : ℕ)
        → now < deadline
        → accept m deadline now ≡ some (record m { expires_at = deadline })
    unfolding accept
    accept-in_time m deadline now h = ground arith

    -- An acquisition of a free lock, answered in time: the next fencing token is returned, and until
    -- the local deadline the lock key holds the lease's token.
    pub try_acquire_granted :
        (trip cleanup : Trip) (db : Db) (n : ℕ)
        → l.fencing ≡ true
        → trip.fate ≡ delivered
        → trip.sent ≤ trip.served
        → get db trip.served l.key ≡ none
        → get db trip.served l.fkey ≡ some (decimal n)
        → trip.back < request_expiry trip.sent l.ttl
        → let r = try_acquire redis l trip cleanup db in
          (r.error ≡ [])
          × (r.value ≡ n + 1)
          × (r.lease ≡ record l { expires_at = request_expiry trip.sent l.ttl })
          × ((t : ℕ) → trip.served ≤ t → t < r.lease.expires_at → get r.db t l.key ≡ some l.id)
    unfolding acquired settled
    try_acquire_granted trip cleanup db n on f sent free e back =
        let r = (grant-counter trip.served trip.served n db on (omega arith) e e).0 in
        rw (acquire_delivered redis laws l trip cleanup db f, ask-free trip.served db free, r)
          (let in_time = accept-in_time l (request_expiry trip.sent l.ttl) trip.back back in
            rw in_time (
              refl,
              refl,
              refl,
              λ t le lt.
                  get-grant trip.served t db le
                    (omega (arith, request_expiry_le trip.sent trip.served l.ttl sent)),
            ))

    acquire_lost :
        (trip cleanup : Trip) (db : Db)
        → trip.fate ≡ reply_lost
        → try_acquire redis l trip cleanup db ≡ record {
          db = (ask redis laws l trip.served db).0;
          lease = l;
          value = 0;
          error = transport ∷ [];
        }
    unfolding try_acquire transmit acquired
    acquire_lost trip cleanup db f = rw (f, arrive)

    answered-in_time :
        (trip cleanup : Trip) (n : ℕ) (db : Db)
        → trip.back < request_expiry trip.sent l.ttl
        → acquired redis l trip cleanup (db, int n) ≡ record {
          db = db;
          lease = record l { expires_at = request_expiry trip.sent l.ttl };
          value = n;
          error = [];
        }
    unfolding acquired settled
    answered-in_time trip cleanup n db back =
        rw (accept-in_time l (request_expiry trip.sent l.ttl) trip.back back)

    pub acquire_retry :
        (t t' n : ℕ) (db : Db)
        → l.fencing ≡ true
        → get db t l.key ≡ none
        → get db t l.fkey ≡ some (decimal n)
        → get db t' l.fkey ≡ some (decimal n)
        → t ≤ t'
        → t' < t + milliseconds l.ttl * millisecond
        → let first = ask redis laws l t db in
          (first.1 ≡ some (n + 1)) × (ask redis laws l t' first.0 ≡ first)
    unfolding fence_flag
    acquire_retry t t' n db on free e e' le lt =
        let r = grant-counter t t' n db on le e e' in
        rw (ask-free t db free) (
          r.0,
          single_acquire_own redis laws (grant redis laws l t db).0 t' l.key l.fkey l.id
                (milliseconds l.ttl) (fence_flag l) (get-grant t t' db le lt)
              ∙ ground (arith, r.0, r.1, to_number-decimal (n + 1)),
        )

    -- A second call of `TryAcquire` on a lease whose first one was committed without an answer gets the
    -- old grant, but counts its deadline from its own request. So at every time between the end of the
    -- timeout that the first call set and that deadline, the lease is taken for valid while the lock
    -- is free.
    pub recovered_grant_outlives :
        (first second cleanup : Trip) (db : Db) (n t : ℕ)
        → l.fencing ≡ true
        → first.fate ≡ reply_lost
        → second.fate ≡ delivered
        → get db first.served l.key ≡ none
        → get db first.served l.fkey ≡ some (decimal n)
        → get db second.served l.fkey ≡ some (decimal n)
        → first.served ≤ second.served
        → second.served < first.served + milliseconds l.ttl * millisecond
        → second.back < request_expiry second.sent l.ttl
        → first.served + milliseconds l.ttl * millisecond + millisecond ≤ t
        → t < request_expiry second.sent l.ttl
        → let one = try_acquire redis l first cleanup db in
          let two = try_acquire redis one.lease second cleanup one.db in
          (one.error ≡ transport ∷ [])
          × (two.error ≡ [])
          × (t < two.lease.expires_at)
          × (get two.db t l.key ≡ none)
    recovered_grant_outlives first second cleanup db n t on f f' free e e' le lt back after before =
        let r = acquire_retry first.served second.served n db on free e e' le lt in
        rw (acquire_lost first cleanup db f) (
          rw (acquire_delivered redis laws l second cleanup _ f', r.1, r.0)
            (rw (answered-in_time second cleanup (n + 1) _ back) (
              refl,
              refl,
              before,
              rw (ask-free first.served db free) (get-grant_after first.served t db after),
            )))
