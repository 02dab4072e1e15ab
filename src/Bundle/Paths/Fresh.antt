-- ===== src/Bundle/Paths/Fresh.antt =====
-- The search of `unique_path` in src/bundle/bundle_service.py.
use mathlib.Core.List.{append_cancel_left, append_cancel_right}
use platform_api.Prelude.{
  Bool-cases, List, Option-cases, Result-cases, Text, Without, [], append_assoc, arith, contains,
  decimal, decimal_injective, err, false, inl, inr, is_empty, join, keep, last_or, length,
  length-keep-le, none, not, ok, refl, some, split, split_at-append, split_at_of_Without, suc, text,
  text_eq, text_eq_iff, true, zero, ℕ, ◌++◌, ◌+◌, ◌<◌, ◌∷◌, ◌≡◌, ◌≢◌, ◌≤◌,
}
use platform_api.Bundle.Paths.{
  PosixPath, empty_name, first_free, is_part, numbered, out_of_fuel, posix_path, replace_last,
  slash, stem_suffix, unique_path,
}

-- What stands before the last part of a joined path.
before_last : List Text → Text
before_last [] = []
before_last (x ∷ []) = []
before_last (x ∷ y ∷ r) = x ++ (text "/" ++ before_last (y ∷ r))

join-replace_last :
    (n x : Text) (r : List Text)
    → join (text "/") (replace_last n (x ∷ r)) ≡ before_last (x ∷ r) ++ n
unfolding before_last
join-replace_last n x [] = refl
join-replace_last n x (y ∷ []) = simp append_assoc
join-replace_last n x (y ∷ z ∷ r) = simp (join-replace_last n y (z ∷ r), append_assoc)

-- The text in front of the stem, the same for every count.
numbered_front : PosixPath → List Text → Text
unfolding before_last
numbered_front p t = p.root ++ before_last t

numbered-eq :
    (p : PosixPath) (x : Text) (r : List Text) (i : ℕ)
    → p.tail ≡ x ∷ r
    → let (stem, suffix) = stem_suffix (last_or [] (x ∷ r)) in
      numbered p i
      ≡ some ((numbered_front p (x ∷ r) ++ (stem ++ text "-")) ++ (decimal i ++ suffix))
unfolding numbered numbered_front
numbered-eq p x r i e = rw e (simp (join-replace_last, append_assoc))

numbered_empty : (p : PosixPath) (i : ℕ) → p.tail ≡ [] → numbered p i ≡ none
unfolding numbered
numbered_empty p i e = rw e

-- Two counts give two names.
numbered_injective :
    (p : PosixPath) (i j : ℕ) (s : Text) → numbered p i ≡ some s → numbered p j ≡ some s → i ≡ j
numbered_injective p i j s hi hj = go p.tail refl
  where
    go : (t : List Text) → p.tail ≡ t → i ≡ j
    go [] e = cc (hi, numbered_empty p i e)
    go (x ∷ r) e =
        let (stem, suffix) = stem_suffix (last_or [] (x ∷ r)) in
        let front = numbered_front p (x ∷ r) ++ (stem ++ text "-") in
        let same : front ++ (decimal i ++ suffix) ≡ front ++ (decimal j ++ suffix) =
          cc (hi, hj, numbered-eq p x r i e, numbered-eq p x r j e) in
        decimal_injective i j
          (append_cancel_right (decimal i) (decimal j) suffix (append_cancel_left front _ _ same))

-- `s` taken out of a list
without : Text → List Text → List Text
without s = keep (λ x. not (text_eq x s))

length-without :
    (s : Text) (xs : List Text) → contains s xs ≡ true → length (without s xs) < length xs
unfolding without
length-without s [] h = cc
length-without s (x ∷ xs) h =
    ground (arith, length-without s xs, length-keep-le (λ x. not (text_eq x s)) xs)

contains-without :
    (s t : Text) (xs : List Text) → s ≢ t → contains t xs ≡ true → contains t (without s xs) ≡ true
unfolding without
contains-without s t [] n h = cc
contains-without s t (x ∷ xs) n h =
    ground (arith, contains-without s t xs n, text_eq_iff x s, text_eq_iff x t)

-- Every later name that is taken stands in `left`, which shrinks with each round.
first_free-in_fuel :
    (f : ℕ) (p : PosixPath) (count : ℕ) (taken left : List Text)
    → ((j : ℕ) (s : Text)
        → count ≤ j
        → numbered p j ≡ some s
        → contains s taken ≡ true
        → contains s left ≡ true)
    → length left < f
    → first_free f p count taken ≢ err out_of_fuel
unfolding first_free
first_free-in_fuel zero p count taken left keeps h = elim h [ ]
first_free-in_fuel (suc f) p count taken left keeps h = elim (Option-cases (numbered p count)) [
  | inl e ↦ rw (e, first_free) (λ q. cc)
  | inr (s, e) ↦
      rw (e, first_free)
        (elim (Bool-cases (contains s taken)) [
          | inl used ↦ rw used (
              first_free-in_fuel f p (count + 1) taken (without s left)
                (λ j t later et used'.
                  contains-without s t left
                    (λ q. absurd (omega (arith, numbered_injective p count j s e (rw q et))))
                    (keeps j t (omega arith) et used'))
                (omega (arith, length-without s left (keeps count s (omega arith) e used))))
          | inr free ↦ rw free (λ q. cc)
        ])
]

-- The search for a free name always ends within its fuel.
pub unique_path-in_fuel :
    (path : Text) (taken : List Text) → unique_path path taken ≢ err out_of_fuel
unfolding unique_path
unique_path-in_fuel path taken = elim (Bool-cases (contains path taken)) [
  | inl used ↦ rw used (
      first_free-in_fuel (length taken + 1) (posix_path path) 2 taken taken (λ j s _ _ h. h)
        (omega arith))
  | inr free ↦ rw free (λ q. cc)
]

first_free-free :
    (f : ℕ) (p : PosixPath) (count : ℕ) (taken : List Text) (s : Text)
    → first_free f p count taken ≡ ok s
    → contains s taken ≡ false
unfolding first_free
first_free-free zero p count taken s h = cc
first_free-free (suc f) p count taken s h = ground (arith, first_free-free f p (count + 1) taken s)

-- The path that is picked is not taken.
pub unique_path-free :
    (path : Text) (taken : List Text) (s : Text)
    → unique_path path taken ≡ ok s
    → contains s taken ≡ false
unfolding unique_path
unique_path-free path taken s h =
    ground (arith, first_free-free (length taken + 1) (posix_path path) 2 taken s)

-- The path has a part that is not "" or ".".
abbrev pub HasName : Text → Type 0
HasName s = is_empty (posix_path s).tail ≡ false

first_free-named :
    (f : ℕ) (p : PosixPath) (count : ℕ) (taken : List Text)
    → is_empty p.tail ≡ false
    → first_free f p count taken ≢ err empty_name
unfolding first_free numbered
first_free-named zero p count taken h = cc
first_free-named (suc f) p count taken h = ground (arith, first_free-named f p (count + 1) taken h)

-- A path with a name always gets a free path.
pub unique_path-found :
    (path : Text) (taken : List Text) → HasName path → (s : Text) × (unique_path path taken ≡ ok s)
unfolding unique_path
unique_path-found path taken h = elim (Bool-cases (contains path taken)) [
  | inr free ↦ (path, rw free)
  | inl used ↦
      let ends =
        first_free-in_fuel (length taken + 1) (posix_path path) 2 taken taken (λ j s _ _ k. k)
          (omega arith) in
      let named = first_free-named (length taken + 1) (posix_path path) 2 taken h in
      elim (Result-cases (first_free (length taken + 1) (posix_path path) 2 taken)) [
        | inl (s, e) ↦ (s, rw used e)
        | inr (empty_name, e) ↦ absurd (named e)
        | inr (out_of_fuel, e) ↦ absurd (ends e)
      ]
]

keep-cons-part :
    (x : Text) (xs : List Text) → is_part x ≡ true → is_empty (keep is_part (x ∷ xs)) ≡ false
keep-cons-part x xs h = rw h

pub HasName-of_part :
    (s rest : Text) → is_part s ≡ true → Without slash s → HasName (s ++ slash ∷ rest)
unfolding posix_path
HasName-of_part s rest h w =
    rw (split_at-append slash [] s rest, split_at_of_Without slash [] s w)
      (keep-cons-part s (split slash rest) h)

pub HasName-of_name : (s : Text) → is_part s ≡ true → Without slash s → HasName s
unfolding posix_path
HasName-of_name s h w = rw (split_at_of_Without slash [] s w) (keep-cons-part s [] h)
