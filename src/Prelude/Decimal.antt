-- ===== src/Prelude/Decimal.antt =====
-- `str(n)` for a natural number.
use Prim.Native.Nat.{ℕ, zero, suc, ◌+◌, ◌-◌, ◌*◌, ◌/◌, ◌%◌, ◌<◌}
use mathlib.Core.Path.{◌≡◌, refl, sym, ap, ◌∙◌}
use mathlib.Core.Logic.{inl, inr}
use mathlib.Core.Bool.{true}
use mathlib.Core.List.{[], ◌∷◌, ◌++◌}
use native.Mathlib.Omega.{arith}
use platform_api.Prelude.Tests.{Bool-cases, if◌then◌else◌, ltb}
use platform_api.Prelude.Lists.{All, All-append}
use platform_api.Prelude.Strings.{Text, is_digit}

-- The digits of `n`, most significant first, with fuel above `n`.
decimal_from : ℕ → ℕ → Text
decimal_from zero n = []
decimal_from (suc f) n =
    let more = decimal_from f (n / 10) ++ (b'0' + n % 10) ∷ [] in
    if ltb n 10 then (b'0' + n) ∷ [] else more

unfoldable pub decimal : ℕ → Text
unfolding decimal_from
decimal n = decimal_from (suc n) n

read : ℕ → Text → ℕ
read acc [] = acc
read acc (c ∷ s) = read (acc * 10 + (c - b'0')) s

read-append : (acc : ℕ) (s t : Text) → read acc (s ++ t) ≡ read (read acc s) t
unfolding read
read-append acc [] t = refl
read-append acc (c ∷ s) t = read-append (acc * 10 + (c - b'0')) s t

read-decimal_from : (f n : ℕ) → n < f → read 0 (decimal_from f n) ≡ n
unfolding decimal_from read
read-decimal_from zero n h = elim h [ ]
read-decimal_from (suc f) n h = elim (Bool-cases (ltb n 10)) [
  | inl small ↦ rw small (omega arith)
  | inr large ↦ rw large (
      rw (read-append 0 (decimal_from f (n / 10)) ((b'0' + n % 10) ∷ []))
        (rw (read-decimal_from f (n / 10) (ground arith)) (omega arith)))
]

read-decimal : (n : ℕ) → read 0 (decimal n) ≡ n
unfolding decimal
read-decimal n = read-decimal_from (suc n) n (omega arith)

pub decimal_injective : (m n : ℕ) → decimal m ≡ decimal n → m ≡ n
decimal_injective m n e = sym (read-decimal m) ∙ (ap (read 0) e ∙ read-decimal n)

decimal_from-digits : (f n : ℕ) → All (λ c. is_digit c ≡ true) (decimal_from f n)
unfolding decimal_from
decimal_from-digits zero n = tt
decimal_from-digits (suc f) n = elim (Bool-cases (ltb n 10)) [
  | inl small ↦ rw small (ground arith, tt)
  | inr large ↦ rw large (
      All-append (λ c. is_digit c ≡ true) (decimal_from f (n / 10)) ((b'0' + n % 10) ∷ [])
        (decimal_from-digits f (n / 10)) (ground arith, tt))
]

-- Only digits are printed.
pub decimal-digits : (n : ℕ) → All (λ c. is_digit c ≡ true) (decimal n)
unfolding decimal
decimal-digits n = decimal_from-digits (suc n) n

decimal_2049 : decimal 2049 ≡ b'2' ∷ b'0' ∷ b'4' ∷ b'9' ∷ []
unfolding decimal
decimal_2049 = refl
