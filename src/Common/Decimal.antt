-- ===== src/Common/Decimal.antt =====
-- Decimal numerals: `strconv.Itoa` and `strconv.FormatInt` of Go on the numbers from 0 on, and the
-- `tonumber` of Lua on such numerals.
use Prim.Native.Nat.{ℕ, zero, suc, ◌+◌, ◌-◌, ◌*◌, ◌/◌, ◌%◌, ◌<◌}
use mathlib.Core.Path.{◌≡◌, refl, ap, ◌∙◌}
use mathlib.Core.Bool.{◌||◌}
use mathlib.Core.Option.{Option, none, some}
use mathlib.Core.List.{[], ◌∷◌}
use mathlib.Core.Logic.{◌≢◌, inl, inr}
use native.Mathlib.Omega.{arith}
use distsync.Common.Tests.{Text, ltb, tests, Bool-cases, if◌then◌else◌}

-- The digits of `n`, in front of `rest`. More fuel than `n` is enough.
unfoldable pub digits : ℕ → ℕ → Text → Text
digits zero n rest = rest
digits (suc fuel) n rest =
    let d = b'0' + n % 10 in
    let more = digits fuel (n / 10) (d ∷ rest) in if ltb n 10 then d ∷ rest else more

unfoldable pub decimal : ℕ → Text
unfolding digits
decimal n = digits (suc n) n []

unfoldable pub scan : ℕ → Text → Option ℕ
scan acc [] = some acc
scan acc (c ∷ s) =
    let more = scan (acc * 10 + (c - b'0')) s in if ltb c b'0' || ltb b'9' c then none else more

unfoldable pub to_number : Text → Option ℕ
unfolding scan
to_number [] = none
to_number (c ∷ s) = scan 0 (c ∷ s)

scan_digit : (n d : ℕ) (rest : Text) → d < 10 → scan n ((b'0' + d) ∷ rest) ≡ scan (n * 10 + d) rest
unfolding scan
scan_digit n d rest h = let e : b'0' + d - b'0' ≡ d = omega arith in rw e (ground arith)

scan-digits : (fuel n : ℕ) (rest : Text) → n < fuel → scan 0 (digits fuel n rest) ≡ scan n rest
unfolding digits
scan-digits zero n rest h = absurd (omega arith)
scan-digits (suc fuel) n rest h = elim (Bool-cases (ltb n 10)) [
  | inl e ↦
      rw e (scan_digit 0 (n % 10) rest (omega arith) ∙ ap (λ k. scan k rest) (omega (tests, e)))
  | inr e ↦ rw e (
      scan-digits fuel (n / 10) ((b'0' + n % 10) ∷ rest) (omega (tests, e))
      ∙ scan_digit (n / 10) (n % 10) rest (omega arith)
      ∙ ap (λ k. scan k rest) (omega arith))
]

digits_ne : (fuel n c : ℕ) (rest : Text) → digits fuel n (c ∷ rest) ≢ []
unfolding digits
digits_ne zero n c rest = λ e. cc
digits_ne (suc fuel) n c rest =
    let ih = digits_ne fuel (n / 10) (b'0' + n % 10) (c ∷ rest) in ground arith

decimal_ne : (n : ℕ) → decimal n ≢ []
unfolding decimal digits
decimal_ne n = let more = digits_ne n (n / 10) (b'0' + n % 10) [] in ground arith

to_number-scan : (s : Text) → s ≢ [] → to_number s ≡ scan 0 s
unfolding to_number
to_number-scan [] h = absurd (h refl)
to_number-scan (c ∷ s) h = refl

-- A printed number reads back as itself.
pub to_number-decimal : (n : ℕ) → to_number (decimal n) ≡ some n
unfolding decimal scan
to_number-decimal n =
    to_number-scan (decimal n) (decimal_ne n) ∙ scan-digits (suc n) n [] (omega arith)

-- So two numbers are never printed alike.
pub decimal-injective : (m n : ℕ) → decimal m ≡ decimal n → m ≡ n
decimal-injective m n e = cc (to_number-decimal m, to_number-decimal n, ap to_number e)
