-- ===== src/Lease/SingleOwner/System.antt =====
-- Any number of `SingleOwner` leases on one lock key, each of its own acquisition, over one server.
-- The server runs one script at a time; between a script and the reading of its reply any time may
-- pass and any other step happen, and a reply may never be read.
pub mod Effects
use distsync.Common.{
  ℕ, ◌+◌, ◌*◌, ◌≤◌, ◌≡◌, Bool, true, false, Option, none, some, ite, Reply_discrete, update, ltb,
  ◌==◌, if◌then◌else◌,
}
use distsync.Redis.{Strings, millisecond}
use distsync.Lease.Core.{request_expiry, milliseconds}
use distsync.Lease.SingleOwner.{SingleOwner, fence_flag, accept, extend}
use distsync.Lease.SingleOwner.Scripts.{single_acquire, single_renew, single_release}

-- A lease and its handle: `served` is the time at which the server last set or renewed the timeout
-- of the lock for it, `fence` the number in the last reply to an acquisition, and `lost` is set from
-- the moment at which the handle's context is canceled, so in particular before a release. The code
-- does not know `recovered`: it says that the last acquisition that was read was requested only after
-- the server had set that timeout, so that it recovered a grant of an earlier request.
pub record Client : Type 0 where
  pub lease : SingleOwner
  pub served : Option ℕ
  pub fence : ℕ
  pub lost : Bool
  pub recovered : Bool

-- `minted` counts the fencing tokens that were drawn.
pub record World (Db : Type 0) : Type 0 where
  pub now : ℕ
  pub db : Db
  pub clients : ℕ → Client
  pub minted : ℕ

-- The reply to an acquisition, on its way; only a new grant sets the timeout.
answer : Client → Bool → ℕ → Option ℕ → Client
answer c old now none = c
answer c old now (some n) = record c { served = if old then c.served else some now; fence = n }

draws : Bool → Bool → Option ℕ → ℕ
draws old fencing none = 0
draws old fencing (some n) = if old then 0 else if fencing then 1 else 0

answer_renewal : Client → ℕ → Option ℕ → Client
answer_renewal c now none = c
answer_renewal c now (some n) = if n == 1 then record c { served = some now } else c

module _ {Db : Type 0} (redis : Strings Db) where
  abbrev acquire_script : World Db → SingleOwner → Db × Option ℕ
  acquire_script w l =
      single_acquire redis w.db w.now l.key l.fkey l.id (milliseconds l.ttl) (fence_flag l)

  abbrev renew_script : World Db → SingleOwner → Db × Option ℕ
  renew_script w l = single_renew redis w.db w.now l.key l.id (milliseconds l.ttl)

  abbrev is_owner : World Db → SingleOwner → Bool
  is_owner w l = ite (Reply_discrete (redis.get w.db w.now l.key) (some l.id)) true false

  unfoldable pub serve_acquire : World Db → ℕ → World Db
  unfolding answer draws
  serve_acquire w i =
      let c = w.clients i in
      let r = acquire_script w c.lease in
      let old = is_owner w c.lease in
      record w {
        db = r.0;
        clients = update w.clients i (answer c old w.now r.1);
        minted = w.minted + draws old c.lease.fencing r.1;
      }

  unfoldable pub serve_renew : World Db → ℕ → World Db
  unfolding answer_renewal
  serve_renew w i =
      let c = w.clients i in
      let r = renew_script w c.lease in
      record w { db = r.0; clients = update w.clients i (answer_renewal c w.now r.1) }

  unfoldable pub serve_release : World Db → ℕ → World Db
  serve_release w i =
      let l = (w.clients i).lease in
      record w { db = (single_release redis w.db w.now l.key l.id).0 }

  abbrev pub with_lease : World Db → ℕ → SingleOwner → World Db
  with_lease w i l = record w { clients = update w.clients i (record (w.clients i) { lease = l }) }

  abbrev pub with_loss : World Db → ℕ → World Db
  with_loss w i = record w { clients = update w.clients i (record (w.clients i) { lost = true }) }

  abbrev pub with_grant : World Db → ℕ → SingleOwner → Bool → World Db
  with_grant w i l recovered = record w {
    clients = update w.clients i (record (w.clients i) { lease = l; recovered = recovered });
  }

  -- The reply to an acquisition is read only if the server has set a timeout for the lease, by the
  -- script of this request or of an earlier one; that to a renewal only if the server set or renewed
  -- the timeout after its request was made.
  pub data Step (w : World Db) : World Db → Type 0 where
    pass : (d : ℕ) → Step w (record w { now = w.now + d })
    serves_acquire : (i : ℕ) → Step w (serve_acquire w i)
    takes_acquire :
        (i sent e : ℕ) (l : SingleOwner)
        → (w.clients i).served ≡ some e
        → sent ≤ w.now
        → accept (w.clients i).lease (request_expiry sent (w.clients i).lease.ttl) w.now ≡ some l
        → Step w (with_grant w i l (ltb e sent))
    serves_renew : (i : ℕ) → Step w (serve_renew w i)
    takes_renew :
        (i sent e : ℕ)
        → (w.clients i).served ≡ some e
        → sent ≤ e
        → Step w (
            with_lease w i
              (extend (w.clients i).lease (request_expiry sent (w.clients i).lease.ttl) w.now).0)
    loses : (i : ℕ) → Step w (with_loss w i)
    serves_release : (i : ℕ) → (w.clients i).lost ≡ true → Step w (serve_release w i)

  pub data Reach (w : World Db) : World Db → Type 0 where
    here : Reach w w
    next : {u v : World Db} → Reach w u → Step u v → Reach w v
