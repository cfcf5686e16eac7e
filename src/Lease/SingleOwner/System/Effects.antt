-- ===== src/Lease/SingleOwner/System/Effects.antt =====
-- What a served script does to the world, by what the lock key holds.
use distsync.Common.{ℕ, ◌+◌, ◌≡◌, ◌≢◌, Option, none, some, Text, update, arith, if◌then◌else◌}
use distsync.Redis.{Strings, StringLaws}
use distsync.Lease.Core.{milliseconds}
use distsync.Lease.SingleOwner.{SingleOwner, fence_flag}
use distsync.Lease.SingleOwner.Scripts.{mint, number_in}
use distsync.Lease.SingleOwner.Laws.{
  single_acquire_own, single_acquire_free, single_acquire_taken, single_renew_own,
  single_renew_other, single_release_own, single_release_other,
}
use distsync.Lease.SingleOwner.System.{
  Client, World, serve_acquire, serve_renew, serve_release, answer, draws,
}

-- A client that reads its own grant again.
abbrev pub reread : Client → Option ℕ → Client
reread c none = c
reread c (some n) = record c { fence = n }

module _ {Db : Type 0} (redis : Strings Db) (laws : StringLaws redis) (w : World Db) (i : ℕ) where
  open redis use {get, set_px, incr, pexpire, del}

  abbrev c : Client
  c = w.clients i

  abbrev l : SingleOwner
  l = c.lease

  abbrev pub fresh_db : Db
  fresh_db = set_px w.db w.now l.key l.id (milliseconds l.ttl)

  pub serve_acquire_own :
      get w.db w.now l.key ≡ some l.id
      → serve_acquire redis w i ≡ record w {
        clients =
            update w.clients i
              (reread c (if l.fencing then number_in (get w.db w.now l.fkey) else some 0));
      }
  unfolding serve_acquire answer draws mint fence_flag
  serve_acquire_own e =
      rw
        (single_acquire_own redis laws w.db w.now l.key l.fkey l.id (milliseconds l.ttl)
          (fence_flag l) e)
        (ground arith)

  pub serve_acquire_free :
      get w.db w.now l.key ≡ none
      → serve_acquire redis w i ≡ record w {
        db = if l.fencing then (incr fresh_db w.now l.fkey).0 else fresh_db;
        clients = update w.clients i (record c {
          served = some w.now;
          fence = if l.fencing then (incr fresh_db w.now l.fkey).1 else 0;
        });
        minted = w.minted + (if l.fencing then 1 else 0);
      }
  unfolding serve_acquire answer draws mint fence_flag
  serve_acquire_free e =
      rw
        (single_acquire_free redis laws w.db w.now l.key l.fkey l.id (milliseconds l.ttl)
          (fence_flag l) e)
        (ground arith)

  pub serve_acquire_taken :
      (o : Text)
      → get w.db w.now l.key ≡ some o
      → o ≢ l.id
      → serve_acquire redis w i ≡ record w { clients = update w.clients i c }
  unfolding serve_acquire answer draws mint fence_flag
  serve_acquire_taken o e other =
      rw
        (single_acquire_taken redis laws w.db w.now l.key l.fkey l.id o (milliseconds l.ttl)
          (fence_flag l) e other)
        (ground arith)

  pub serve_renew_own :
      get w.db w.now l.key ≡ some l.id
      → serve_renew redis w i ≡ record w {
        db = pexpire w.db w.now l.key (milliseconds l.ttl);
        clients = update w.clients i (record c { served = some w.now });
      }
  unfolding serve_renew
  serve_renew_own e = rw (single_renew_own redis laws w.db w.now l.key l.id (milliseconds l.ttl) e)

  pub serve_renew_other :
      get w.db w.now l.key ≢ some l.id
      → serve_renew redis w i ≡ record w { clients = update w.clients i c }
  unfolding serve_renew
  serve_renew_other e =
      rw (single_renew_other redis laws w.db w.now l.key l.id (milliseconds l.ttl) e)

  pub serve_release_own :
      get w.db w.now l.key ≡ some l.id
      → serve_release redis w i ≡ record w { db = (del w.db w.now l.key).0 }
  unfolding serve_release
  serve_release_own e = rw (single_release_own redis laws w.db w.now l.key l.id e)

  pub serve_release_other : get w.db w.now l.key ≢ some l.id → serve_release redis w i ≡ w
  unfolding serve_release
  serve_release_other e = rw (single_release_other redis laws w.db w.now l.key l.id e)
