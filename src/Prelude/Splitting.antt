-- ===== src/Prelude/Splitting.antt =====
-- Splitting and stripping texts: how the two meet their separators.
use Prim.Native.Nat.{ℕ}
use mathlib.Core.Path.{◌≡◌, refl, ap, ◌∙◌}
use mathlib.Core.Logic.{inl, inr}
use mathlib.Core.Bool.{Bool, true, false, ◌&&◌}
use mathlib.Core.List.{List, [], ◌∷◌, ◌++◌, reverse, reverse-append, append-nil, append_assoc}
use native.Mathlib.Omega.{arith}
use platform_api.Prelude.Lists.{is_empty, last_or}
use platform_api.Prelude.Tests.{Bool-cases, if◌then◌else◌, ◌==◌}
use platform_api.Prelude.Strings.{Text, split_at, split, drop_while, rstrip}

-- How `split` meets a separator, and a text that holds none.
pub split_at-append :
    (sep : ℕ) (cur s t : Text)
    → split_at sep cur (s ++ sep ∷ t) ≡ split_at sep cur s ++ split_at sep [] t
split_at-append sep cur [] t = ground arith
split_at-append sep cur (c ∷ s) t =
    ground (arith, split_at-append sep [] s t, split_at-append sep (cur ++ c ∷ []) s t)

abbrev pub Without : ℕ → Text → Type 0
Without sep [] = Unit
Without sep (c ∷ s) = ((c == sep) ≡ false) × Without sep s

pub split_at_of_Without :
    (sep : ℕ) (cur s : Text) → Without sep s → split_at sep cur s ≡ (cur ++ s) ∷ []
split_at_of_Without sep cur [] h = rw append-nil
split_at_of_Without sep cur (c ∷ s) (p, h) =
    rw p
      (split_at_of_Without sep (cur ++ c ∷ []) s h ∙ ap (λ x. x ∷ []) (append_assoc cur (c ∷ []) s))

-- No part of a split text holds the separator.
pub Without-append : (sep : ℕ) (s t : Text) → Without sep s → Without sep t → Without sep (s ++ t)
Without-append sep [] t h k = k
Without-append sep (c ∷ s) t (p, h) k = (p, Without-append sep s t h k)

-- `s.rsplit(sep, 1)[-1]`: what follows the last separator
abbrev pub after_last : ℕ → Text → Text
after_last sep s = last_or [] (split sep s)

Withouts : ℕ → List Text → Type 0
Withouts sep [] = Unit
Withouts sep (s ∷ ss) = Without sep s × Withouts sep ss

split_at-Withouts : (sep : ℕ) (cur s : Text) → Without sep cur → Withouts sep (split_at sep cur s)
unfolding Withouts
split_at-Withouts sep cur [] h = (h, tt)
split_at-Withouts sep cur (c ∷ s) h = elim (Bool-cases (c == sep)) [
  | inl e ↦ rw e (h, split_at-Withouts sep [] s tt)
  | inr e ↦
      rw e (split_at-Withouts sep (cur ++ c ∷ []) s (Without-append sep cur (c ∷ []) h (e, tt)))
]

last_or-Without :
    (sep : ℕ) (d : Text) (ss : List Text)
    → Without sep d
    → Withouts sep ss
    → Without sep (last_or d ss)
unfolding Withouts
last_or-Without sep d [] h k = h
last_or-Without sep d (s ∷ ss) h (p, k) = last_or-Without sep s ss p k

pub after_last-Without : (sep : ℕ) (s : Text) → Without sep (after_last sep s)
after_last-Without sep s = last_or-Without sep [] (split sep s) tt (split_at-Withouts sep [] s tt)

-- every character is dropped
abbrev pub all_dropped : (ℕ → Bool) → Text → Bool
all_dropped p [] = true
all_dropped p (c ∷ s) = p c && all_dropped p s

drop_while-append_one :
    (p : ℕ → Bool) (s : Text) (c : ℕ)
    → drop_while p (s ++ c ∷ [])
      ≡ (if all_dropped p s then drop_while p (c ∷ []) else drop_while p s ++ c ∷ [])
drop_while-append_one p [] c = refl
drop_while-append_one p (d ∷ s) c = ground (arith, drop_while-append_one p s c)

drop_while-empty : (p : ℕ → Bool) (s : Text) → all_dropped p s ≡ true → drop_while p s ≡ []
drop_while-empty p [] h = refl
drop_while-empty p (c ∷ s) h = ground (arith, drop_while-empty p s)

drop_while-nonempty :
    (p : ℕ → Bool) (s : Text) → all_dropped p s ≡ false → is_empty (drop_while p s) ≡ false
drop_while-nonempty p [] h = cc
drop_while-nonempty p (c ∷ s) h = ground (arith, drop_while-nonempty p s)

is_empty-reverse : (s : Text) → is_empty (reverse s) ≡ is_empty s
is_empty-reverse [] = refl
is_empty-reverse (c ∷ s) = rw (reverse-append (c ∷ []) s) (is_empty-snoc (reverse s) c)
  where
    is_empty-snoc : (t : Text) (d : ℕ) → is_empty (t ++ d ∷ []) ≡ false
    is_empty-snoc [] d = refl
    is_empty-snoc (e ∷ t) d = refl

-- Stripping the right end, from the left: a character stays where something after it stays.
pub rstrip-cons :
    (p : ℕ → Bool) (c : ℕ) (s : Text)
    → rstrip p (c ∷ s)
      ≡ (if is_empty (rstrip p s) then (if p c then [] else c ∷ []) else c ∷ rstrip p s)
rstrip-cons p c s =
    rw (reverse-append (c ∷ []) s, drop_while-append_one p (reverse s) c)
      (elim (Bool-cases (all_dropped p (reverse s))) [
        | inl e ↦ rw (e, drop_while-empty p (reverse s) e) (one (p c))
        | inr e ↦ rw (
          e,
          is_empty-reverse (drop_while p (reverse s)),
          drop_while-nonempty p (reverse s) e,
          reverse-append (drop_while p (reverse s)) (c ∷ []),
        )
      ])
  where
    one : (b : Bool) → reverse (if b then [] else c ∷ []) ≡ (if b then [] else c ∷ [])
    one true = refl
    one false = refl
