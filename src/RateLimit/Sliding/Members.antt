-- ===== src/RateLimit/Sliding/Members.antt =====
-- The entries of requests with different tokens of the same length have different names.
use distsync.Common.{
  ℕ, zero, suc, ◌+◌, ◌≤◌, ◌≡◌, ◌≢◌, refl, ◌∙◌, [], ◌∷◌, ◌++◌, Text, length, none, if◌then◌else◌,
  arith,
}
use distsync.Common.Int.{ℤ, pos, ltb_ℤ}
use distsync.Common.Decimal.{decimal, decimal-injective}
use mathlib.Core.List.{append_cancel_left}
use distsync.Redis.Windows.{Windows, WindowLaws}
use distsync.RateLimit.Sliding.{Window, member, add_entries}

same_length : (p q u v : Text) → length p ≡ length q → p ++ u ≡ q ++ v → p ≡ q
same_length [] [] u v l e = refl
same_length [] (c ∷ q) u v l e = absurd (omega (arith, l))
same_length (c ∷ p) [] u v l e = absurd (omega (arith, l))
same_length (c ∷ p) (d ∷ q) u v l e =
    let h : p ++ u ≡ q ++ v = cc in
    let r : p ≡ q = same_length p q u v (omega (arith, l)) h in let c_eq : c ≡ d = cc in cc

pub member_apart : (p q : Text) (i j : ℕ) → length p ≡ length q → p ≢ q → member p i ≢ member q j
member_apart p q i j l ne e = ne (same_length p q _ _ l e)

member-index : (p : Text) (i j : ℕ) → i ≢ j → member p i ≢ member p j
member-index p i j ne e =
    let e' = append_cancel_left p (b':' ∷ decimal i) (b':' ∷ decimal j) e in
    ne (decimal-injective i j (ground (arith, e')))

module _ {W : Type 0} (redis : Windows W) (laws : WindowLaws redis) (window : Window) where
  open redis use {zcount, zscore, zadd}

  pub zscore-add_entries :
      (w : W) (t now : ℕ) (p q : Text) (i n j : ℕ)
      → length p ≡ length q
      → p ≢ q
      → zscore (add_entries redis window w t now p i n) t window.key (member q j)
        ≡ zscore w t window.key (member q j)
  unfolding add_entries
  zscore-add_entries w t now p q i zero j l ne = refl
  zscore-add_entries w t now p q i (suc n) j l ne =
      zscore-add_entries (zadd w t window.key now (member p i)) t now p q (i + 1) n j l ne
      ∙ laws.zscore-zadd_other w t window.key (member p i) (member q j) now
          (member_apart p q i j l ne)

  pub zcount-add_entries :
      (w : W) (t now : ℕ) (p : Text) (i n : ℕ) (min : ℤ)
      → ((j : ℕ) → i ≤ j → zscore w t window.key (member p j) ≡ none)
      → zcount (add_entries redis window w t now p i n) t window.key min
        ≡ zcount w t window.key min + (if ltb_ℤ min (pos now) then n else 0)
  unfolding add_entries
  zcount-add_entries w t now p i zero min fresh = ground arith
  zcount-add_entries w t now p i (suc n) min fresh =
      let w' = zadd w t window.key now (member p i) in
      let rest = zcount-add_entries w' t now p (i + 1) n min (λ j le.
        laws.zscore-zadd_other w t window.key (member p i) (member p j) now
          (member-index p i j (λ e. omega (arith, le, e)))
        ∙ fresh j (omega (arith, le))) in
      let one = laws.zcount-zadd w t window.key (member p i) now min (fresh i (omega arith)) in
      ground (arith, rest, one)
