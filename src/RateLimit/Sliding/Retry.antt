-- ===== src/RateLimit/Sliding/Retry.antt =====
-- When a request that the sliding window refused may be granted.
use distsync.Common.{
  ℕ, ◌+◌, ◌-◌, ◌*◌, ◌≤◌, ◌<◌, ◌≡◌, ◌∙◌, sym, refl, [], ◌&&◌, true, false, some, Text, ltb, arith,
  Bool-cases, Option-cases, inl, inr, ap,
}
use distsync.Common.Int.{
  ℤ, pos, pos_part, sub_ℕ, ◌-ℤ◌, ltb_ℤ, ltb-sub, sub-sub, pos_sub, pos_part-sub,
}
use distsync.Redis.{millisecond}
use distsync.Redis.Windows.{Windows, WindowLaws}
use distsync.RateLimit.Sliding.{Window, sliding_script, wait_for}
use distsync.RateLimit.Sliding.Counts.{after_purge}

wait_for_lem : (l now s : ℕ) → pos_part (wait_for l now (some s)) ≡ l + s - now
wait_for_lem l now s =
    ap (λ u. pos_part (u -ℤ sub_ℕ now s)) (pos_sub l)
    ∙ ap pos_part (sub-sub l 0 now s)
    ∙ pos_part-sub (l + s) (0 + now)
    ∙ omega arith

module _ {W : Type 0} (redis : Windows W) (laws : WindowLaws redis) (window : Window) where
  open redis use {zcount, zcard, zfirst, pexpire}

  -- After the purge every entry is in the window.
  zfirst-purged :
      (w : W) (t now s : ℕ)
      → zfirst (after_purge redis laws window w t now) t window.key ≡ some s
      → now < s + window.length
  unfolding after_purge
  zfirst-purged w t now s e =
      let (k, l) : Text × ℕ = (window.key, window.length) in
      let w' = after_purge redis laws window w t now in
      let test : ltb_ℤ (sub_ℕ now l) (pos s) ≡ ltb now (s + l) = ground arith in
      elim (Bool-cases (ltb_ℤ (sub_ℕ now l) (pos s))) [
        | inl h ↦ ground (arith, test, h)
        | inr h ↦
            let fewer = laws.zfirst_fewer w' t k s (sub_ℕ now l) e h in
            let same =
              laws.zcount-zremrangebyscore w t k (sub_ℕ now l) (sub_ℕ now l)
                (ltb-sub now l now l ∙ ground arith) in
            let card = laws.zcard-zremrangebyscore w t k (sub_ℕ now l) in
            absurd (omega (arith, fewer, same, card))
      ]

  -- What is left is still there for a client that asks before the first entry is a window old.
  zcard-again :
      (w : W) (t now t' now' s : ℕ)
      → zfirst (after_purge redis laws window w t now) t window.key ≡ some s
      → now' < s + window.length
      → t ≤ t'
      → t' < t + window.length * 2 * millisecond
      → (let w' =
            pexpire (after_purge redis laws window w t now) t window.key (window.length * 2) in
          zcard (after_purge redis laws window w' t' now') t' window.key
          ≡ zcard (after_purge redis laws window w t now) t window.key)
  unfolding after_purge
  zcard-again w t now t' now' s e lt le soon =
      let (k, l) : Text × ℕ = (window.key, window.length) in
      let w1 = after_purge redis laws window w t now in
      let test : ltb_ℤ (sub_ℕ now' l) (pos s) ≡ true = ground (arith, lt) in
      laws.zcard-zremrangebyscore (pexpire w1 t k (l * 2)) t' k (sub_ℕ now' l)
      ∙ elim (laws.after_pexpire w1 t t' k [] (sub_ℕ now' l) (l * 2) le) [
        | inl (same, _) ↦ same ∙ laws.zfirst_all w1 t k s (sub_ℕ now' l) e test
        | inr (late, _, _) ↦ absurd (omega (arith, late, soon))
      ]

  -- A request that was refused, of a count within the limit, is told to wait, and until the time
  -- that it was told is over the same count is refused again, whoever asks for it.
  pub sliding_retry :
      (w w' : W) (t now n : ℕ) (token : Text) (wait : ℤ) (t' now' : ℕ) (token' : Text)
      → n ≤ window.limit
      → sliding_script redis window w t now n token ≡ (w', (false, 0, wait))
      → t ≤ t'
      → t' < t + window.length * 2 * millisecond
      → (0 < pos_part wait)
        × ((ltb now' (now + pos_part wait) && (sliding_script redis window w' t' now' n token').1.0)
            ≡ false)
  unfolding sliding_script after_purge
  sliding_retry w w' t now n token wait t' now' token' fits e le soon =
      let (k, l) : Text × ℕ = (window.key, window.length) in
      let w1 = after_purge redis laws window w t now in
      let full : ltb window.limit (zcard w1 t k + n) ≡ true = ground (arith, ap (λ u. u.1.0) e) in
      let left : w' ≡ pexpire w1 t k (l * 2) = ground (arith, ap (λ u. u.0) (sym e), full) in
      let told : wait ≡ wait_for l now (zfirst w1 t k) =
        ground (arith, ap (λ u. u.1.1) (sym e), full) in
      elim (Option-cases (zfirst w1 t k)) [
        | inl none_left ↦
            let empty = laws.zfirst_none w1 t k none_left in
            absurd (ground (arith, full, empty, fits))
        | inr (s, first) ↦
            let lt = zfirst-purged w t now s first in
            let waits : pos_part wait ≡ l + s - now =
              ap pos_part told
              ∙ ap (λ o. pos_part (wait_for l now o)) first
              ∙ wait_for_lem l now s in
            (
              omega (arith, waits, lt),
              elim (Bool-cases (ltb now' (now + pos_part wait))) [
                | inr over ↦ rw over refl
                | inl early ↦
                    let again =
                      zcard-again w t now t' now' s first (ground (arith, early, waits, lt)) le
                        soon in
                    rw (early, left, again, full) refl
              ],
            )
      ]
