-- ===== src/Prelude/Tables.antt =====
-- The parts of Python's `str` that read the Unicode tables, which are not in the repository.
use Prim.Native.Nat.{ℕ, ◌+◌, ◌-◌}
use mathlib.Core.Path.{◌≡◌, refl}
use mathlib.Core.Bool.{Bool, true, ◌||◌}
use mathlib.Core.List.{[], ◌∷◌, map}
use native.Mathlib.Omega.{arith}
use platform_api.Prelude.Tests.{if◌then◌else◌, ◌==◌}
use platform_api.Prelude.Lists.{All}
use platform_api.Prelude.Strings.{Text, is_digit, is_lower, is_upper}

-- a lowercase ASCII letter, a digit, "_" or "-"
abbrev pub is_plain : ℕ → Bool
is_plain c = is_lower c || (is_digit c || (c == b'_' || c == b'-'))

-- `str.lower`, `str.upper`, `str.isalnum` and `str.isspace`; the laws are those of the tables.
pub record Unicode : Type 0 where
  pub lower : Text → Text
  pub upper : Text → Text
  pub is_alnum : ℕ → Bool
  pub is_space : ℕ → Bool
  pub lower_plain : (s : Text) → All (λ c. is_plain c ≡ true) s → lower s ≡ s

abbrev pub lower_ascii : ℕ → ℕ
lower_ascii c = if is_upper c then c + 32 else c

abbrev pub upper_ascii : ℕ → ℕ
upper_ascii c = if is_lower c then c - 32 else c

pub map-lower_ascii : (s : Text) → All (λ c. is_plain c ≡ true) s → map lower_ascii s ≡ s
map-lower_ascii [] h = refl
map-lower_ascii (c ∷ s) (p, h) = ground (arith, map-lower_ascii s h)

-- The tables cut down to ASCII.
abbrev pub ascii : Unicode
ascii = record {
  lower = map lower_ascii;
  upper = map upper_ascii;
  is_alnum = λ c. is_lower c || (is_upper c || is_digit c);
  is_space = λ c. c == 32 || (c == 9 || (c == 10 || c == 13));
  lower_plain = map-lower_ascii;
}
