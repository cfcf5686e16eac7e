-- ===== src/RateLimit/Sliding/Counts.antt =====
-- One request to the sorted set: what it counts, and what it leaves behind.
use distsync.Common.{
  ℕ, ◌+◌, ◌*◌, ◌≤◌, ◌≡◌, ◌∙◌, sym, refl, none, [], ◌∷◌, ltb, arith, All, length, inl, inr,
}
use distsync.Common.Int.{pos, sub_ℕ, ltb_ℤ, ltb-sub}
use distsync.Redis.Windows.{Windows, WindowLaws}
use distsync.Lease.Core.{milliseconds}
use distsync.RateLimit.Sliding.{Window, member, add_entries}
use distsync.RateLimit.Sliding.Log.{Request, Log, used}
use distsync.RateLimit.Sliding.Members.{zcount-add_entries}

used-lapsed :
    (length : ℕ) (log : Log) (last x : ℕ)
    → All (λ e. e.0 ≤ last) log
    → last + length ≤ x
    → used length log x ≡ 0
unfolding used
used-lapsed length [] last x before late = refl
used-lapsed length ((s, n) ∷ log) last x (le, before) late =
    ground (arith, le, late, used-lapsed length log last x before late)

pub All-later :
    (log : Log) (last now : ℕ) → last ≤ now → All (λ e. e.0 ≤ last) log → All (λ e. e.0 ≤ now) log
All-later [] last now le before = tt
All-later (e ∷ log) last now le (h, before) =
    (omega (arith, h, le), All-later log last now le before)

module _ {W : Type 0} (redis : Windows W) (laws : WindowLaws redis) (window : Window) where
  open redis use {zcount, zscore, zcard, zadd, zremrangebyscore, pexpire, del}

  -- From `t` on, the set counts what the log counts, for a client that sees `last` or later.
  unfoldable pub Counts : ℕ → ℕ → Log → W → Type 0
  Counts t last log w =
      (t' x : ℕ)
      → t ≤ t'
      → last ≤ x
      → milliseconds t' ≤ x + window.length
      → zcount w t' window.key (sub_ℕ x window.length) ≡ used window.length log x

  -- From `t` on, the set has no entry of a request.
  abbrev pub Unseen : ℕ → W → Request → Type 0
  Unseen t w a = (t' j : ℕ) → t ≤ t' → zscore w t' window.key (member a.token j) ≡ none

  -- What a script leaves, if it leaves what the log counts at its own time
  pub pexpire-Counts :
      (w : W) (t last : ℕ) (log : Log)
      → last ≤ milliseconds t
      → All (λ e. e.0 ≤ last) log
      → ((x : ℕ)
          → last ≤ x
          → zcount w t window.key (sub_ℕ x window.length) ≡ used window.length log x)
      → Counts t last log (pexpire w t window.key (window.length * 2))
  unfolding Counts milliseconds
  pexpire-Counts w t last log shown before h t' x le le' near =
      elim (laws.after_pexpire w t t' window.key [] (sub_ℕ x window.length) (window.length * 2)
        le) [
          | inl (e, e') ↦ e ∙ h x le'
          | inr (late, e, e') ↦
              e
              ∙ sym (used-lapsed window.length log last x before (omega (arith, late, shown, near)))
        ]

  pub pexpire-Unseen :
      (w : W) (t : ℕ) (a : Request)
      → ((j : ℕ) → zscore w t window.key (member a.token j) ≡ none)
      → Unseen t (pexpire w t window.key (window.length * 2)) a
  pexpire-Unseen w t a h t' j le =
      elim (laws.after_pexpire w t t' window.key (member a.token j) (pos 0) (window.length * 2)
        le) [ inl (e, e') ↦ e' ∙ h j | inr (late, e, e') ↦ e' ]

  -- The purge, and what it leaves
  unfoldable pub after_purge : W → (t now : ℕ) → W
  after_purge w t now = zremrangebyscore w t window.key (sub_ℕ now window.length)

  module _ (w : W) (t last : ℕ) (log : Log) (t' : ℕ) (a : Request) (counts : Counts t last log w)
      (le : t ≤ t') (le' : last ≤ a.now) (near : milliseconds t' ≤ a.now + window.length) where
    pub zcount-purged :
        (x : ℕ)
        → a.now ≤ x
        → zcount (after_purge w t' a.now) t' window.key (sub_ℕ x window.length)
          ≡ used window.length log x
    unfolding after_purge Counts
    zcount-purged x later =
        let l = window.length in
        laws.zcount-zremrangebyscore w t' window.key (sub_ℕ a.now l) (sub_ℕ x l)
          (ltb-sub x l a.now l ∙ ground (arith, later))
        ∙ counts t' x le (omega (arith, le', later)) (omega (arith, near, later))

    pub zcard-purged : zcard (after_purge w t' a.now) t' window.key ≡ used window.length log a.now
    unfolding after_purge Counts
    zcard-purged =
        laws.zcard-zremrangebyscore w t' window.key (sub_ℕ a.now window.length)
        ∙ counts t' a.now le le' near

    pub zcount-added :
        (x : ℕ)
        → a.now ≤ x
        → Unseen t w a
        → zcount
            (add_entries redis window (after_purge w t' a.now) t' a.now a.token 0 a.n)
            t'
            window.key
            (sub_ℕ x window.length)
          ≡ used window.length ((a.now, a.n) ∷ log) x
    unfolding used after_purge
    zcount-added x later unseen =
        let l = window.length in
        let added =
          zcount-add_entries redis laws window (after_purge w t' a.now) t' a.now a.token 0 a.n
            (sub_ℕ x l)
            (λ j _.
              laws.zscore-zremrangebyscore w t' window.key (member a.token j) (sub_ℕ a.now l)
                (unseen t' j le)) in
        let test : ltb_ℤ (sub_ℕ x l) (pos a.now) ≡ ltb x (a.now + l) = ground arith in
        ground (arith, added, test, zcount-purged x later)
