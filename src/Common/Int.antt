-- ===== src/Common/Int.antt =====
-- Integers over the native numbers, with what the buckets of the rate limiter do with them.
use Prim.Native.Nat.{ℕ, suc, ◌+◌, ◌-◌, ◌*◌}
use mathlib.Core.Bool.{Bool}
use mathlib.Core.Path.{◌≡◌, ap}
use native.Mathlib.Omega.{arith}
use distsync.Common.Tests.{leb, ltb, if◌then◌else◌}

-- `negsuc n` is -(n + 1).
pub data ℤ : Type 0 where
  pos : ℕ → ℤ
  negsuc : ℕ → ℤ

abbrev pub pos_part : ℤ → ℕ
pos_part (pos n) = n
pos_part (negsuc n) = 0

abbrev pub neg_part : ℤ → ℕ
neg_part (pos n) = 0
neg_part (negsuc n) = suc n

-- a - b of two numbers
abbrev pub sub_ℕ : ℕ → ℕ → ℤ
sub_ℕ a b = if leb b a then pos (a - b) else negsuc (b - a - 1)

infixl 65 ◌+ℤ◌ ◌-ℤ◌
unfoldable pub ◌+ℤ◌ : ℤ → ℤ → ℤ
a +ℤ b = sub_ℕ (pos_part a + pos_part b) (neg_part a + neg_part b)

unfoldable pub ◌-ℤ◌ : ℤ → ℤ → ℤ
a -ℤ b = sub_ℕ (pos_part a + neg_part b) (neg_part a + pos_part b)

-- a * n
unfoldable pub times : ℤ → ℕ → ℤ
times a n = sub_ℕ (pos_part a * n) (neg_part a * n)

-- a < b
abbrev pub ltb_ℤ : ℤ → ℤ → Bool
ltb_ℤ a b = ltb (pos_part a + neg_part b) (pos_part b + neg_part a)

-- A computation on differences is one on the numbers that they are made of.
pub sub-eq : (a b c d : ℕ) → a + d ≡ c + b → sub_ℕ a b ≡ sub_ℕ c d
sub-eq a b c d h = ground arith

parts : (a b : ℕ) → pos_part (sub_ℕ a b) + b ≡ neg_part (sub_ℕ a b) + a
parts a b = ground arith

pub sub-add : (a b c d : ℕ) → sub_ℕ a b +ℤ sub_ℕ c d ≡ sub_ℕ (a + c) (b + d)
unfolding ◌+ℤ◌
sub-add a b c d = sub-eq _ _ _ _ (omega (arith, parts a b, parts c d))

pub sub-sub : (a b c d : ℕ) → sub_ℕ a b -ℤ sub_ℕ c d ≡ sub_ℕ (a + d) (b + c)
unfolding ◌-ℤ◌
sub-sub a b c d = sub-eq _ _ _ _ (omega (arith, parts a b, parts c d))

pub times-sub : (a b n : ℕ) → times (sub_ℕ a b) n ≡ sub_ℕ (a * n) (b * n)
unfolding times
times-sub a b n =
    let h : (pos_part (sub_ℕ a b) + b) * n ≡ (neg_part (sub_ℕ a b) + a) * n =
      ap (λ u. u * n) (parts a b) in
    sub-eq _ _ _ _ (grind (arith, h))

pub ltb-sub : (a b c d : ℕ) → ltb_ℤ (sub_ℕ a b) (sub_ℕ c d) ≡ ltb (a + d) (c + b)
ltb-sub a b c d = ground (arith, parts a b, parts c d)

pub pos_sub : (n : ℕ) → pos n ≡ sub_ℕ n 0
pos_sub n = ground arith

pub pos_part-sub : (a b : ℕ) → pos_part (sub_ℕ a b) ≡ a - b
pos_part-sub a b = ground arith
