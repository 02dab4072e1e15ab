-- ===== src/Wizard/Secrets/Laws.antt =====
-- Reading back what src/wizard/secrets_env.py saves.
use platform_api.Prelude.{
  All, All-append, Bool, Bool-cases, List, Option, Text, Without, [], ap, append_assoc, arith,
  contains, false, if◌then◌else◌, inl, inr, is_empty, join, keep, lookup, map, none, not, refl,
  some, sym, text, text_eq, true, ◌++◌, ◌∙◌, ◌∷◌, ◌≡◌, ◌⊎◌,
}
use platform_api.Wizard.Lines.Laws.{IsLine, splitlines-IsLine, splitlines-with_breaks, with_breaks}
use platform_api.Wizard.Secrets.{
  Values, assignment, equals_sign, find_value, key_of, lines_of, names_of, read_secret,
  save_secrets, saved_lines, value_of,
}
use platform_api.Wizard.Steps.Laws.{contains-same}
use platform_api.Wizard.Lines.{is_break, splitlines}

-- A name without a sign and a value, both without a line break.
abbrev pub IsAssignment : Text × Text → Type 0
IsAssignment (name, value) = Without equals_sign name × IsLine name × IsLine value

abbrev pub first_of : Option Text → Option Text → Option Text
first_of none b = b
first_of (some v) b = some v

key_of-assignment :
    (name value : Text) → Without equals_sign name → key_of (assignment (name, value)) ≡ name
unfolding key_of
key_of-assignment [] value h = refl
key_of-assignment (c ∷ name) value (p, h) = rw p (ap (λ s. c ∷ s) (key_of-assignment name value h))

value_of-assignment :
    (name value : Text) → Without equals_sign name → value_of (assignment (name, value)) ≡ value
unfolding value_of
value_of-assignment [] value h = refl
value_of-assignment (c ∷ name) value (p, h) = rw p (value_of-assignment name value h)

find_value-append :
    (name : Text) (xs ys : List Text)
    → find_value name (xs ++ ys) ≡ first_of (find_value name xs) (find_value name ys)
unfolding find_value
find_value-append name [] ys = refl
find_value-append name (x ∷ xs) ys = elim (Bool-cases (text_eq (key_of x) name)) [
  | inl e ↦ rw e refl
  | inr e ↦ rw e (find_value-append name xs ys)
]

find_value-assignments :
    (name : Text) (values : Values)
    → All IsAssignment values
    → find_value name (map assignment values) ≡ lookup name values
unfolding find_value
find_value-assignments name [] h = refl
find_value-assignments name ((n, v) ∷ values) ((w, _, _), h) =
    rw (key_of-assignment n v w, value_of-assignment n v w)
      (ap (λ o. if text_eq n name then some v else o) (find_value-assignments name values h))

-- A line that names `b` as wanted, where the wanted name is saved anew (`d`) and the line dropped (`k`).
chosen :
    (b d k : Bool) (v kept found : Option Text)
    → (b ≡ true → d ≡ k)
    → kept ≡ (if d then none else found)
    → (if k then kept else if b then v else kept) ≡ (if d then none else if b then v else found)
chosen true true k v kept found h e = rw (sym (h refl)) e
chosen true false k v kept found h e = rw (sym (h refl)) refl
chosen false d true v kept found h e = e
chosen false d false v kept found h e = e

-- Of the kept lines, none sets a name that is saved, and all that set another are there.
find_value-kept :
    (name : Text) (names lines : List Text)
    → find_value name (keep (λ line. not (contains (key_of line) names)) lines)
      ≡ (if contains name names then none else find_value name lines)
unfolding find_value
find_value-kept name names [] = by_case (contains name names)
  where
    by_case : (b : Bool) → ◌≡◌ {A = Option Text} none (if b then none else none)
    by_case true = refl
    by_case false = refl
find_value-kept name names (line ∷ lines) = elim (Bool-cases (contains (key_of line) names)) [
  | inl e ↦ rw e (
      chosen (text_eq (key_of line) name) (contains name names) true (some (value_of line))
        (find_value name (keep (λ l. not (contains (key_of l) names)) lines))
        (find_value name lines) (λ same. contains-same (key_of line) name names same ∙ e)
        (find_value-kept name names lines))
  | inr e ↦ rw e (
      chosen (text_eq (key_of line) name) (contains name names) false (some (value_of line))
        (find_value name (keep (λ l. not (contains (key_of l) names)) lines))
        (find_value name lines) (λ same. contains-same (key_of line) name names same ∙ e)
        (find_value-kept name names lines))
]

join-with_breaks :
    (ls : List Text) → is_empty ls ≡ false → join (text "\n") ls ++ text "\n" ≡ with_breaks ls
join-with_breaks [] h = absurd (ground arith)
join-with_breaks (l ∷ []) h = refl
join-with_breaks (l ∷ m ∷ ls) h =
    append_assoc l (10 ∷ join (text "\n") (m ∷ ls)) (text "\n")
    ∙ ap (λ s. l ++ 10 ∷ s) (join-with_breaks (m ∷ ls) refl)

All-keep : (p : Text → Bool) (ls : List Text) → All IsLine ls → All IsLine (keep p ls)
All-keep p [] h = tt
All-keep p (l ∷ ls) (q, h) = elim (Bool-cases (p l)) [
  | inl e ↦ rw e (q, All-keep p ls h)
  | inr e ↦ rw e (All-keep p ls h)
]

assignments-IsLine :
    (values : Values) → All IsAssignment values → All IsLine (map assignment values)
assignments-IsLine [] h = tt
assignments-IsLine ((n, v) ∷ values) ((_, q, r), h) = (
  All-append (λ c. is_break c ≡ false) n (equals_sign ∷ v) q (refl, r),
  assignments-IsLine values h,
)

lines_of-IsLine : (file : Option Text) → All IsLine (lines_of file)
lines_of-IsLine none = tt
lines_of-IsLine (some s) = splitlines-IsLine s

is_empty-append : (xs : List Text) (y : Text) (ys : List Text) → is_empty (xs ++ y ∷ ys) ≡ false
is_empty-append [] y ys = refl
is_empty-append (x ∷ xs) y ys = refl

splitlines-save_secrets :
    (file : Option Text) (v : Text × Text) (values : Values)
    → All IsAssignment (v ∷ values)
    → splitlines (save_secrets file (v ∷ values)) ≡ saved_lines file (v ∷ values)
unfolding save_secrets saved_lines
splitlines-save_secrets file v values h =
    let kept =
      keep (λ line. not (contains (key_of line) (names_of (v ∷ values)))) (lines_of file) in
    ap splitlines (
      join-with_breaks (kept ++ map assignment (v ∷ values))
        (is_empty-append kept (assignment v) (map assignment values)))
    ∙ splitlines-with_breaks (kept ++ map assignment (v ∷ values)) (
        All-append IsLine kept (map assignment (v ∷ values))
          (All-keep _ (lines_of file) (lines_of-IsLine file)) (assignments-IsLine (v ∷ values) h))

-- A dictionary has a value for exactly its names.
lookup-names_of :
    (name : Text) (values : Values)
    → ((contains name (names_of values) ≡ true) × ((v : Text) × (lookup name values ≡ some v)))
      ⊎ ((contains name (names_of values) ≡ false) × (lookup name values ≡ none))
lookup-names_of name [] = inr (refl, refl)
lookup-names_of name ((n, v) ∷ values) = elim (Bool-cases (text_eq n name)) [
  | inl e ↦ inl (rw e (refl, (v, refl)))
  | inr e ↦ rw e (lookup-names_of name values)
]

found_or_kept :
    (name : Text) (values : Values) (before : Option Text)
    → first_of (if contains name (names_of values) then none else before) (lookup name values)
      ≡ first_of (lookup name values) before
found_or_kept name values before = elim (lookup-names_of name values) [
  | inl (c, (v, e)) ↦ rw (c, e) refl
  | inr (c, e) ↦ rw (c, e) (none_kept before)
]
  where
    none_kept : (b : Option Text) → first_of b none ≡ b
    none_kept none = refl
    none_kept (some v) = refl

-- After a save, with at least one name, names that hold no sign, and names and values on one line: a
-- saved name reads as its value, and every other name as it read before.
pub read_secret-save_secrets :
    (file : Option Text) (v : Text × Text) (values : Values) (name : Text)
    → All IsAssignment (v ∷ values)
    → read_secret name (some (save_secrets file (v ∷ values)))
      ≡ first_of (lookup name (v ∷ values)) (read_secret name file)
unfolding read_secret saved_lines
read_secret-save_secrets file v values name h =
    let kept =
      keep (λ line. not (contains (key_of line) (names_of (v ∷ values)))) (lines_of file) in
    ap (find_value name) (splitlines-save_secrets file v values h)
    ∙ (find_value-append name kept (map assignment (v ∷ values))
        ∙ (rw
            (
              find_value-kept name (names_of (v ∷ values)) (lines_of file),
              find_value-assignments name (v ∷ values) h,
            )
            (found_or_kept name (v ∷ values) (find_value name (lines_of file)))))
