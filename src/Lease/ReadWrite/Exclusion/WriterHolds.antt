-- ===== src/Lease/ReadWrite/Exclusion/WriterHolds.antt =====
-- While a writer's key holds its token and no reader is in the set, nobody else is granted the lock.
use distsync.Common.{
  ℕ, ◌+◌, ◌*◌, ◌<◌, ◌≤◌, ◌≡◌, ◌≢◌, ◌⊎◌, inl, inr, refl, sym, ap, subst, ◌∙◌, true, false, none,
  some, [], ◌∷◌, Text, arith, Option-cases, some_eq,
}
use native.Mathlib.Nat.{le_refl, le_trans}
use distsync.Lease.SingleOwner.Laws.{single_renew_own, single_renew_other, single_release_other}
use distsync.Redis.{millisecond}
use distsync.Lease.PermitSet.Capacity.{renew-zcard, release-zcard}
use distsync.Lease.ReadWrite.Scripts.{
  RwKeys, Server, Store, is_owned, writer_member, reader_member, queued, leave_queue, try_write,
  try_read, rw_write_lock, rw_read_lock,
}
use distsync.Lease.ReadWrite.Writer.{renew_writer, release_writer}
use distsync.Lease.ReadWrite.Reader.{renew_reader, release_reader}
use distsync.Lease.ReadWrite.Calls.{
  Kind, writes, reads, renews_write, renews_read, releases_write, releases_read, leaves, IsOther,
  serve,
}
use distsync.Lease.ReadWrite.Exclusion.Frame.{IsApart, LockLaws, get-queued, queued-sets, zcard-pos}

module _ {S Z Q H : Type 0} (redis : Server S Z Q H) (laws : LockLaws redis) (keys : RwKeys)
    (apart : IsApart keys) where
  open redis.strings use {get, exists}
  open redis.sets use {zcard, zscore}

  -- From `t` on until `until` the writer's key holds the token, and there is no reader.
  pub record WriterHolds (token : Text) (t until : ℕ) (s : Store S Z Q H) : Type 0 where
    pub held : (t' : ℕ) → t ≤ t' → t' < until → get s.strings t' keys.writer ≡ some token
    pub no_reader : zcard s.sets keys.readers ≡ 0

  module _ (w : Text) (t until : ℕ) (lt : t < until) (s : Store S Z Q H)
      (h : WriterHolds w t until s) where
    exists-queued :
        (member : Text) (now timeout : ℕ)
        → exists (queued redis keys t s member now timeout).0.strings t keys.writer ≡ true
    exists-queued member now timeout =
        let u = queued redis keys t s member now timeout in
        ground (
          arith,
          laws.strings.exists_lem u.0.strings t keys.writer,
          get-queued redis laws keys apart t t s member now timeout (le_refl _),
          h.held t (le_refl _) lt,
        )

    -- What leaves the writer's key alone and adds no reader keeps the lock.
    kept :
        (s' : Store S Z Q H)
        → ((t' : ℕ) → t ≤ t' → get s'.strings t' keys.writer ≡ get s.strings t' keys.writer)
        → zcard s'.sets keys.readers ≤ zcard s.sets keys.readers
        → WriterHolds w t until s'
    kept s' same fewer = record {
      held = λ t' le lt'. same t' le ∙ h.held t' le lt';
      no_reader = omega (arith, fewer, h.no_reader);
    }

    queued-WriterHolds :
        (member : Text) (now timeout : ℕ)
        → WriterHolds w t until (queued redis keys t s member now timeout).0
    queued-WriterHolds member now timeout =
        kept (queued redis keys t s member now timeout).0
          (λ t' le. get-queued redis laws keys apart t t' s member now timeout le)
          (rw (queued-sets redis keys t s member now timeout) (le_refl _))

    other : (token : Text) → token ≢ w → get s.strings t keys.writer ≢ some token
    other token ne e = ne (some_eq (sym e ∙ h.held t (le_refl _) lt))

    -- Another contender gets nil, and only its place in the queue changes.
    pub write-refused :
        (token : Text) (ttl now timeout : ℕ)
        → token ≢ w
        → rw_write_lock redis keys t s token ttl now timeout
          ≡ ((queued redis keys t s (writer_member token) now timeout).0, none)
    unfolding rw_write_lock try_write
    write-refused token ttl now timeout ne =
        ground (arith, other token ne, exists-queued (writer_member token) now timeout)

    read_kept :
        (token : Text) (ttl now timeout : ℕ)
        → ((rw_read_lock redis keys t s token ttl now timeout).0 ≡ s)
          ⊎ ((rw_read_lock redis keys t s token ttl now timeout).0
              ≡ (queued redis keys t s (reader_member token) now timeout).0)
    unfolding rw_read_lock try_read
    read_kept token ttl now timeout =
        ground (arith, exists-queued (reader_member token) now timeout)

    not_owned : (token : Text) (now : ℕ) → is_owned (zscore s.sets keys.readers token) now ≡ false
    not_owned token now = elim (Option-cases (zscore s.sets keys.readers token)) [
      | inl e ↦ rw e refl
      | inr (k, e) ↦
          absurd (
            omega
              (arith, h.no_reader, zcard-pos redis.sets laws.sets s.sets keys.readers token k e))
    ]

    pub read-refused :
        (token : Text) (ttl now timeout : ℕ)
        → (rw_read_lock redis keys t s token ttl now timeout).1 ≡ none
    unfolding rw_read_lock try_read
    read-refused token ttl now timeout =
        ground (arith, not_owned token now, exists-queued (reader_member token) now timeout)

    pub serve-WriterHolds :
        (now : ℕ) (k : Kind) → IsOther w k → WriterHolds w t until (serve redis keys t now s k)
    unfolding serve renew_writer release_writer renew_reader release_reader leave_queue
    serve-WriterHolds now (writes token ttl timeout) ne =
        subst (WriterHolds w t until) (ap (λ u. u.0) (sym (write-refused token ttl now timeout ne)))
          (queued-WriterHolds (writer_member token) now timeout)
    serve-WriterHolds now (reads token ttl timeout) ne = elim (read_kept token ttl now timeout) [
      | inl e ↦ subst (WriterHolds w t until) (sym e) h
      | inr e ↦
          subst (WriterHolds w t until) (sym e)
            (queued-WriterHolds (reader_member token) now timeout)
    ]
    serve-WriterHolds now (renews_write token ttl) ne =
        kept (renew_writer redis keys token ttl s t).0
          (λ t' le.
            ap (λ u. get u.0 t' keys.writer)
              (single_renew_other redis.strings laws.strings s.strings t keys.writer token ttl
                (other token ne)))
          (le_refl _)
    serve-WriterHolds now (renews_read token ttl) ne =
        kept (renew_reader redis keys token now ttl s).0 (λ t' le. refl)
          (omega (arith, renew-zcard redis.sets laws.sets s.sets keys.readers now ttl (token ∷ [])))
    serve-WriterHolds now (releases_write token) ne =
        kept (release_writer redis keys token s t).0
          (λ t' le.
            ap (λ u. get u.0 t' keys.writer)
              (single_release_other redis.strings laws.strings s.strings t keys.writer token
                (other token ne)))
          (le_refl _)
    serve-WriterHolds now (releases_read token) ne =
        kept (release_reader redis keys token s).0 (λ t' le. refl)
          (release-zcard redis.sets laws.sets s.sets keys.readers (token ∷ []))
    serve-WriterHolds now (leaves member) ne = record { held = h.held; no_reader = h.no_reader }

    -- The holder's own renewal sets a new end.
    pub renewed-WriterHolds :
        (ttl : ℕ) → WriterHolds w t (t + ttl * millisecond) (renew_writer redis keys w ttl s t).0
    unfolding renew_writer
    renewed-WriterHolds ttl =
        let own = h.held t (le_refl _) lt in
        let e = single_renew_own redis.strings laws.strings s.strings t keys.writer w ttl own in
        record {
          held = λ t' le lt'.
              ap (λ u. get u.0 t' keys.writer) e
              ∙ laws.strings.get-pexpire_before s.strings t t' keys.writer w ttl own le lt';
          no_reader = h.no_reader;
        }

    -- Time alone changes nothing before `until`.
    pub later-WriterHolds : (t' : ℕ) → t ≤ t' → WriterHolds w t' until s
    later-WriterHolds t' le = record {
      held = λ u lu ltu. h.held u (le_trans le lu) ltu;
      no_reader = h.no_reader;
    }
