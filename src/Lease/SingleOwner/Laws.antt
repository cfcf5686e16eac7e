-- ===== src/Lease/SingleOwner/Laws.antt =====
-- What the scripts internal/lua/single_*.lua do, by what the lock key holds.
use distsync.Common.{
  ℕ, ◌≤◌, ◌<◌, ◌≡◌, ◌≢◌, none, some, [], ◌∷◌, ite, Text, Text_discrete, arith, leb, ltb,
  if◌then◌else◌,
}
use distsync.Redis.{Strings, StringLaws}
use distsync.Lease.SingleOwner.{SingleOwner, accept, extend}
use distsync.Lease.SingleOwner.Scripts.{
  single_acquire, single_renew, single_release, mint, number_in,
}

-- Accepting a grant and renewing it change the local deadline only.
pub accept-some :
    (l l' : SingleOwner) (deadline now : ℕ)
    → accept l deadline now ≡ some l'
    → (l' ≡ record l { expires_at = deadline }) × (now < deadline)
unfolding accept
accept-some l l' deadline now e = ground arith

pub extended : SingleOwner → ℕ → ℕ → ℕ
extended l deadline now =
    if leb l.expires_at now
    then l.expires_at
    else if leb deadline now
    then l.expires_at
    else if ltb l.expires_at deadline
    then deadline
    else l.expires_at

pub extend-extended :
    (l : SingleOwner) (deadline now : ℕ)
    → (extend l deadline now).0 ≡ record l { expires_at = extended l deadline now }
unfolding extend extended
extend-extended l deadline now = ground arith

pub extended_bound :
    (l : SingleOwner) (deadline now bound : ℕ)
    → l.expires_at ≤ bound
    → deadline ≤ bound
    → extended l deadline now ≤ bound
unfolding extended
extended_bound l deadline now bound h h' = ground arith

abbrev pub fencing_on : Text
fencing_on = b'1' ∷ []

abbrev pub fencing_off : Text
fencing_off = b'0' ∷ []

module _ {Db : Type 0} (redis : Strings Db) (laws : StringLaws redis) where
  open redis use {get, set_px, set_nx_px, pexpire, del, incr}

  set_nx_px_free :
      (db : Db) (now : ℕ) (k v : Text) (ms : ℕ)
      → get db now k ≡ none
      → set_nx_px db now k v ms ≡ some (set_px db now k v ms)
  set_nx_px_free db now k v ms e =
      ground (arith, laws.set_nx_px_lem db now k v ms, laws.exists_lem db now k)

  set_nx_px_taken :
      (db : Db) (now : ℕ) (k v w : Text) (ms : ℕ)
      → get db now k ≡ some w
      → set_nx_px db now k v ms ≡ none
  set_nx_px_taken db now k v w ms e =
      ground (arith, laws.set_nx_px_lem db now k v ms, laws.exists_lem db now k)

  -- The owner gets its live grant again, and nothing changes.
  pub single_acquire_own :
      (db : Db) (now : ℕ) (k f token : Text) (ms : ℕ) (flag : Text)
      → get db now k ≡ some token
      → single_acquire redis db now k f token ms flag
        ≡ (db, ite (Text_discrete flag fencing_on) (number_in (get db now f)) (some 0))
  unfolding single_acquire
  single_acquire_own db now k f token ms flag e = ground arith

  pub single_acquire_free :
      (db : Db) (now : ℕ) (k f token : Text) (ms : ℕ) (flag : Text)
      → get db now k ≡ none
      → single_acquire redis db now k f token ms flag
        ≡ mint redis (set_px db now k token ms) now f flag
  unfolding single_acquire
  single_acquire_free db now k f token ms flag e =
      ground (arith, set_nx_px_free db now k token ms e)

  pub single_acquire_taken :
      (db : Db) (now : ℕ) (k f token owner : Text) (ms : ℕ) (flag : Text)
      → get db now k ≡ some owner
      → owner ≢ token
      → single_acquire redis db now k f token ms flag ≡ (db, none)
  unfolding single_acquire
  single_acquire_taken db now k f token owner ms flag e other =
      ground (arith, set_nx_px_taken db now k token owner ms e)

  -- A new grant holds the key until its timeout, whether a fence is minted or not.
  pub get-mint :
      (db : Db) (now t : ℕ) (k f : Text) (flag : Text)
      → f ≢ k
      → now ≤ t
      → get (mint redis db now f flag).0 t k ≡ get db t k
  unfolding mint
  get-mint db now t k f flag ne h = ground (arith, laws.get-incr_other db now t f k ne h)

  pub single_renew_own :
      (db : Db) (now : ℕ) (k token : Text) (ms : ℕ)
      → get db now k ≡ some token
      → single_renew redis db now k token ms ≡ (pexpire db now k ms, some 1)
  unfolding single_renew
  single_renew_own db now k token ms e = ground arith

  pub single_renew_other :
      (db : Db) (now : ℕ) (k token : Text) (ms : ℕ)
      → get db now k ≢ some token
      → single_renew redis db now k token ms ≡ (db, some 0)
  unfolding single_renew
  single_renew_other db now k token ms e = ground arith

  pub single_release_own :
      (db : Db) (now : ℕ) (k token : Text)
      → get db now k ≡ some token
      → single_release redis db now k token ≡ ((del db now k).0, some 1)
  unfolding single_release
  single_release_own db now k token e =
      ground (arith, laws.del-count db now k, laws.exists_lem db now k)

  pub single_release_other :
      (db : Db) (now : ℕ) (k token : Text)
      → get db now k ≢ some token
      → single_release redis db now k token ≡ (db, some 0)
  unfolding single_release
  single_release_other db now k token e = ground arith
