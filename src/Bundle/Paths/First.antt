-- ===== src/Bundle/Paths/First.antt =====
-- What `unique_path` of src/bundle/bundle_service.py searches for, in a definition that has no loop.
use platform_api.Prelude.{
  ==_iff, Bool-cases, List, Option-cases, Text, arith, contains, false, inl, inr, length, ltb,
  ltb→lt, ok, some, suc, true, zero, ℕ, ◌+◌, ◌<◌, ◌==◌, ◌↔◌, ◌≡◌, ◌≤◌, ◌⊎◌,
}
use platform_api.Bundle.Paths.{PosixPath, first_free, numbered, posix_path, unique_path}
use platform_api.Bundle.Paths.Fresh.{HasName, unique_path-found}

-- The name of some count is `s` and free, and the names of the counts before it are taken.
abbrev pub FirstNumber : PosixPath → ℕ → List Text → Text → Type 0
FirstNumber p count taken s =
    (n : ℕ) × (count ≤ n)
    × (numbered p n ≡ some s)
    × (contains s taken ≡ false)
    × ((i : ℕ)
        → count ≤ i
        → i < n
        → (t : Text) × (numbered p i ≡ some t) × (contains t taken ≡ true))

-- The path itself where it is free, and the first free name after it where it is not.
abbrev pub IsFirstFree : Text → List Text → Text → Type 0
IsFirstFree path taken s =
    (contains path taken ≡ false) × (s ≡ path)
    ⊎ (contains path taken ≡ true) × FirstNumber (posix_path path) 2 taken s

FirstNumber-later :
    (p : PosixPath) (count : ℕ) (taken : List Text) (s t : Text)
    → numbered p count ≡ some t
    → contains t taken ≡ true
    → FirstNumber p (count + 1) taken s
    → FirstNumber p count taken s
FirstNumber-later p count taken s t e used (n, le, named, free, before) = (
  n,
  omega (arith, le),
  named,
  free,
  λ i lo hi. elim (Bool-cases (i == count)) [
    | inl here ↦ (t, rw ((==_iff i count).0 here) e, used)
    | inr after ↦ before i (ground (arith, after, lo)) hi
  ],
)

first_free-FirstNumber :
    (f : ℕ) (p : PosixPath) (count : ℕ) (taken : List Text) (s : Text)
    → first_free f p count taken ≡ ok s
    → FirstNumber p count taken s
unfolding first_free
first_free-FirstNumber zero p count taken s h = let no : ⊥ = cc in absurd no
first_free-FirstNumber (suc f) p count taken s h = elim (Option-cases (numbered p count)) [
  | inl e ↦ let no : ⊥ = ground (arith, h, e) in absurd no
  | inr (t, e) ↦ elim (Bool-cases (contains t taken)) [
    | inl used ↦
        FirstNumber-later p count taken s t e used
          (first_free-FirstNumber f p (count + 1) taken s (ground (arith, h, e, used)))
    | inr free ↦
        let same : t ≡ s = ground (arith, h, e, free) in
        (
          count,
          omega arith,
          rw (← same) e,
          rw (← same) free,
          λ i lo hi. let no : ⊥ = omega (arith, lo, hi) in absurd no,
        )
  ]
]

-- Of two counts the smaller one is free and taken.
FirstNumber-apart :
    (p : PosixPath) (count : ℕ) (taken : List Text) (s : Text) (n m : ℕ)
    → count ≤ n
    → n < m
    → numbered p n ≡ some s
    → contains s taken ≡ false
    → ((i : ℕ)
        → count ≤ i
        → i < m
        → (t : Text) × (numbered p i ≡ some t) × (contains t taken ≡ true))
    → ⊥
FirstNumber-apart p count taken s n m lo lt named free before =
    let (t, also, used) = before n lo lt in
    let same : s ≡ t = cc (named, also) in let no : ⊥ = cc (same, free, used) in no

FirstNumber-unique :
    (p : PosixPath) (count : ℕ) (taken : List Text) (s t : Text)
    → FirstNumber p count taken s
    → FirstNumber p count taken t
    → s ≡ t
FirstNumber-unique p count taken s t (n, nl, ns, nf, nb) (m, ml, ms, mf, mb) =
    elim (Bool-cases (ltb n m)) [
      | inl l ↦ absurd (FirstNumber-apart p count taken s n m nl (ltb→lt n m l) ns nf mb)
      | inr g ↦ elim (Bool-cases (ltb m n)) [
        | inl l ↦ absurd (FirstNumber-apart p count taken t m n ml (ltb→lt m n l) ms mf nb)
        | inr k ↦ let same : n ≡ m = ground (arith, g, k) in cc (ns, ms, same)
      ]
    ]

-- A count whose path has a name stands for a path with a part.
numbered-HasName :
    (path : Text) (n : ℕ) (s : Text) → numbered (posix_path path) n ≡ some s → HasName path
unfolding numbered
numbered-HasName path n s h = ground (arith, h)

-- `unique_path` answers a path exactly where that is the path asked for, which is free, or the name
-- of the first count from 2 on that is free, where the path asked for is taken.
pub unique_path-first :
    (path : Text) (taken : List Text) (s : Text)
    → (unique_path path taken ≡ ok s) ↔ IsFirstFree path taken s
unfolding unique_path
unique_path-first path taken s = elim (Bool-cases (contains path taken)) [
  | inr free ↦ (
    λ h. inl (free, ground (arith, h, free)),
    λ q. elim q [
      | inl (_, same) ↦ rw (free, same)
      | inr (used, _) ↦ let no : ⊥ = cc (free, used) in absurd no
    ],
  )
  | inl used ↦ (
    λ h. inr (
      used,
      first_free-FirstNumber (length taken + 1) (posix_path path) 2 taken s
          (ground (arith, h, used)),
    ),
    λ q. elim q [
      | inl (free, _) ↦ let no : ⊥ = cc (free, used) in absurd no
      | inr (_, first) ↦
          let (t, e) = unique_path-found path taken (numbered-HasName path first.0 s first.2) in
          let other =
            first_free-FirstNumber (length taken + 1) (posix_path path) 2 taken t
              (ground (arith, e, used)) in
          rw (← FirstNumber-unique (posix_path path) 2 taken t s other first) e
    ],
  )
]
