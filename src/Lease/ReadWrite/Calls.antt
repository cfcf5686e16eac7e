-- ===== src/Lease/ReadWrite/Calls.antt =====
-- What any client may ask of the server about one read-write lock, at any time and in any order.
use distsync.Common.{ℕ, ◌≢◌, Text}
use distsync.Lease.ReadWrite.Scripts.{
  RwKeys, Server, Store, rw_write_lock, rw_read_lock, leave_queue,
}
use distsync.Lease.ReadWrite.Writer.{renew_writer, release_writer}
use distsync.Lease.ReadWrite.Reader.{renew_reader, release_reader}

-- Each with its token; timeouts are in milliseconds.
pub data Kind : Type 0 where
  writes reads : (token : Text) (ttl timeout : ℕ) → Kind
  renews_write renews_read : (token : Text) (ttl : ℕ) → Kind
  releases_write releases_read : (token : Text) → Kind
  leaves : (member : Text) → Kind

-- A call is served some time after the one before; its client made it some time before that.
pub record Call : Type 0 where
  pub delay : ℕ
  pub age : ℕ
  pub kind : Kind

-- The call is of a client with another token.
abbrev pub IsOther : Text → Kind → Type 0
IsOther x (writes token ttl timeout) = token ≢ x
IsOther x (reads token ttl timeout) = token ≢ x
IsOther x (renews_write token ttl) = token ≢ x
IsOther x (renews_read token ttl) = token ≢ x
IsOther x (releases_write token) = token ≢ x
IsOther x (releases_read token) = token ≢ x
IsOther x (leaves member) = Unit

module _ {S Z Q H : Type 0} (redis : Server S Z Q H) (keys : RwKeys) where
  unfoldable pub serve : ℕ → ℕ → Store S Z Q H → Kind → Store S Z Q H
  serve t now s (writes token ttl timeout) = (rw_write_lock redis keys t s token ttl now timeout).0
  serve t now s (reads token ttl timeout) = (rw_read_lock redis keys t s token ttl now timeout).0
  serve t now s (renews_write token ttl) = (renew_writer redis keys token ttl s t).0
  serve t now s (renews_read token ttl) = (renew_reader redis keys token now ttl s).0
  serve t now s (releases_write token) = (release_writer redis keys token s t).0
  serve t now s (releases_read token) = (release_reader redis keys token s).0
  serve t now s (leaves member) = leave_queue redis keys t s member
