-- ===== src/Lease/ReadWrite/Exclusion/ReaderHolds.antt =====
-- While a reader's score lies ahead and no writer's key exists, no writer is granted the lock.
use distsync.Common.{
  ℕ, ◌+◌, ◌<◌, ◌≤◌, ◌≡◌, ◌≢◌, ◌⊎◌, inl, inr, sym, ap, subst, ◌∙◌, false, none, some, [], ◌∷◌, Text,
  arith,
}
use mathlib.Core.Option.{none-ne-some}
use native.Mathlib.Nat.{le_refl}
use distsync.Lease.SingleOwner.Laws.{single_renew_other, single_release_other}
use distsync.Lease.PermitSet.Scripts.{sem_renew, sem_release, all_live}
use distsync.Lease.PermitSet.Laws.{has, zscore-add_all, zscore-remove_all}
use distsync.Lease.ReadWrite.Scripts.{
  RwKeys, Server, Store, writer_member, reader_member, queued, leave_queue, try_write, try_read,
  rw_write_lock, rw_read_lock,
}
use distsync.Lease.ReadWrite.Writer.{renew_writer, release_writer}
use distsync.Lease.ReadWrite.Reader.{renew_reader, release_reader}
use distsync.Lease.ReadWrite.Calls.{
  Kind, writes, reads, renews_write, renews_read, releases_write, releases_read, leaves, IsOther,
  serve,
}
use distsync.Lease.ReadWrite.Exclusion.Frame.{
  IsApart, LockLaws, get-queued, queued-sets, zcard-pos, get-none_later,
}

module _ {S Z Q H : Type 0} (redis : Server S Z Q H) (laws : LockLaws redis) (keys : RwKeys)
    (apart : IsApart keys) where
  open redis.strings use {get, exists}
  open redis.sets use {zcard, zscore}

  -- The reader has the score, and at `t` there is no writer.
  pub record ReaderHolds (token : Text) (score t : ℕ) (s : Store S Z Q H) : Type 0 where
    pub held : zscore s.sets keys.readers token ≡ some score
    pub no_writer : get s.strings t keys.writer ≡ none

  module _ (r : Text) (score t : ℕ) (s : Store S Z Q H) (h : ReaderHolds r score t s) where
    -- Time brings no writer.
    pub later-ReaderHolds : (t' : ℕ) → t ≤ t' → ReaderHolds r score t' s
    later-ReaderHolds t' le = record {
      held = h.held;
      no_writer = get-none_later redis laws keys apart s.strings t t' le h.no_writer;
    }

    queued-ReaderHolds :
        (member : Text) (now timeout : ℕ)
        → ReaderHolds r score t (queued redis keys t s member now timeout).0
    queued-ReaderHolds member now timeout = record {
      held =
          ap (λ z. zscore z keys.readers r) (queued-sets redis keys t s member now timeout)
          ∙ h.held;
      no_writer =
          get-queued redis laws keys apart t t s member now timeout (le_refl _) ∙ h.no_writer;
    }

    -- A purge by a clock behind the score leaves the reader in the set.
    purge-kept :
        (now : ℕ)
        → now < score
        → zscore (redis.sets.zremrangebyscore s.sets keys.readers now) keys.readers r ≡ some score
    purge-kept now lt =
        ground (arith, laws.sets.zscore-zremrangebyscore s.sets keys.readers now r, h.held)

    try_write-refused :
        (token : Text) (ttl now : ℕ)
        → now < score
        → let z = redis.sets.zremrangebyscore s.sets keys.readers now in
          (try_write redis keys t s token ttl now ≡ (s, none))
          ⊎ (try_write redis keys t s token ttl now ≡ (record s { sets = z }, none))
    unfolding try_write
    try_write-refused token ttl now lt =
        let z = redis.sets.zremrangebyscore s.sets keys.readers now in
        let left = zcard-pos redis.sets laws.sets z keys.readers r score (purge-kept now lt) in
        ground (arith, left)

    try_write-ReaderHolds :
        (token : Text) (ttl now : ℕ)
        → now < score
        → ReaderHolds r score t (try_write redis keys t s token ttl now).0
    try_write-ReaderHolds token ttl now lt = elim (try_write-refused token ttl now lt) [
      | inl e ↦ subst (ReaderHolds r score t) (ap (λ u. u.0) (sym e)) h
      | inr e ↦
          subst (ReaderHolds r score t) (ap (λ u. u.0) (sym e))
            (record { held = purge-kept now lt; no_writer = h.no_writer })
    ]

    not_mine : (token : Text) → get s.strings t keys.writer ≢ some token
    not_mine token e = none-ne-some token (sym h.no_writer ∙ e)

    try_read-ReaderHolds :
        (seq : ℕ) (token : Text) (ttl now : ℕ)
        → token ≢ r
        → ReaderHolds r score t (try_read redis keys t s seq token ttl now).0
    unfolding try_read leave_queue
    try_read-ReaderHolds seq token ttl now ne =
        let added = laws.sets.zscore-zadd s.sets keys.readers (now + ttl) token r in
        record { held = ground (arith, h.held, added); no_writer = ground (arith, h.no_writer) }

    none_of : (token : Text) → token ≢ r → has (token ∷ []) r ≡ false
    unfolding has
    none_of token ne = ground arith

    renewed-ReaderHolds :
        (token : Text) (now ttl : ℕ)
        → token ≢ r
        → ReaderHolds r score t (renew_reader redis keys token now ttl s).0
    unfolding renew_reader sem_renew
    renewed-ReaderHolds token now ttl ne =
        let added =
          zscore-add_all redis.sets laws.sets s.sets keys.readers (now + ttl) (token ∷ []) r in
        record { held = ground (arith, h.held, none_of token ne, added); no_writer = h.no_writer }

    -- The reader's own renewal, by a clock behind its score, sets a new score.
    pub extended-ReaderHolds :
        (now ttl : ℕ)
        → now < score
        → ReaderHolds r (now + ttl) t (renew_reader redis keys r now ttl s).0
    unfolding renew_reader sem_renew all_live has
    extended-ReaderHolds now ttl lt =
        let added =
          zscore-add_all redis.sets laws.sets s.sets keys.readers (now + ttl) (r ∷ []) r in
        record { held = ground (arith, h.held, lt, added); no_writer = h.no_writer }

    released-ReaderHolds :
        (token : Text) → token ≢ r → ReaderHolds r score t (release_reader redis keys token s).0
    unfolding release_reader sem_release
    released-ReaderHolds token ne =
        let gone = zscore-remove_all redis.sets laws.sets s.sets keys.readers 0 (token ∷ []) r in
        record { held = ground (arith, h.held, none_of token ne, gone); no_writer = h.no_writer }

  module _ (r : Text) (score t : ℕ) (s : Store S Z Q H) (h : ReaderHolds r score t s) where
    -- A writer gets nil.
    pub write-barred :
        (token : Text) (ttl now timeout : ℕ)
        → now < score
        → (rw_write_lock redis keys t s token ttl now timeout).1 ≡ none
    unfolding rw_write_lock
    write-barred token ttl now timeout lt =
        let u = queued redis keys t s (writer_member token) now timeout in
        let h' = queued-ReaderHolds r score t s h (writer_member token) now timeout in
        let refused = try_write-refused r score t u.0 h' token ttl now lt in
        ground (arith, not_mine r score t s h token, refused)

    write-ReaderHolds :
        (token : Text) (ttl now timeout : ℕ)
        → now < score
        → ReaderHolds r score t (rw_write_lock redis keys t s token ttl now timeout).0
    unfolding rw_write_lock
    write-ReaderHolds token ttl now timeout lt =
        let u = queued redis keys t s (writer_member token) now timeout in
        let h' = queued-ReaderHolds r score t s h (writer_member token) now timeout in
        let kept = try_write-ReaderHolds r score t u.0 h' token ttl now lt in
        record {
          held = ground (arith, not_mine r score t s h token, kept.held);
          no_writer = ground (arith, not_mine r score t s h token, kept.no_writer);
        }

    read-ReaderHolds :
        (token : Text) (ttl now timeout : ℕ)
        → token ≢ r
        → ReaderHolds r score t (rw_read_lock redis keys t s token ttl now timeout).0
    unfolding rw_read_lock
    read-ReaderHolds token ttl now timeout ne =
        let u = queued redis keys t s (reader_member token) now timeout in
        let h' = queued-ReaderHolds r score t s h (reader_member token) now timeout in
        let kept = try_read-ReaderHolds r score t u.0 h' u.1 token ttl now ne in
        record {
          held = ground (arith, h.held, kept.held);
          no_writer = ground (arith, h.no_writer, kept.no_writer);
        }

    pub serve-ReaderHolds :
        (now : ℕ) (k : Kind)
        → now < score
        → IsOther r k
        → ReaderHolds r score t (serve redis keys t now s k)
    unfolding serve renew_writer release_writer leave_queue
    serve-ReaderHolds now (writes token ttl timeout) lt ne =
        write-ReaderHolds token ttl now timeout lt
    serve-ReaderHolds now (reads token ttl timeout) lt ne =
        read-ReaderHolds token ttl now timeout ne
    serve-ReaderHolds now (renews_write token ttl) lt ne = record {
      held = h.held;
      no_writer =
          ap (λ u. get u.0 t keys.writer)
            (single_renew_other redis.strings laws.strings s.strings t keys.writer token ttl
              (not_mine r score t s h token))
          ∙ h.no_writer;
    }
    serve-ReaderHolds now (renews_read token ttl) lt ne =
        renewed-ReaderHolds r score t s h token now ttl ne
    serve-ReaderHolds now (releases_write token) lt ne = record {
      held = h.held;
      no_writer =
          ap (λ u. get u.0 t keys.writer)
            (single_release_other redis.strings laws.strings s.strings t keys.writer token
              (not_mine r score t s h token))
          ∙ h.no_writer;
    }
    serve-ReaderHolds now (releases_read token) lt ne = released-ReaderHolds r score t s h token ne
    serve-ReaderHolds now (leaves member) lt ne = record { held = h.held; no_writer = h.no_writer }
