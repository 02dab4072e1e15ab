-- ===== src/Manifest/Build/Codes.antt =====
-- The codes of a manifest: a letter of the section and a number.
use mathlib.Core.List.{append_cancel_left}
use platform_api.Prelude.{
  All, All-append, All-map, Bool, Distinct, List, Option-cases, Text, Unicode, Without, [],
  append-nil, arith, contains, contains-append, decimal, decimal-digits, decimal_injective, false,
  if◌then◌else◌, inl, inr, is_digit, is_empty, map, map-append, not, refl, sym, text, text_eq,
  text_eq_of_ne, true, ℕ, ◌++◌, ◌+◌, ◌<◌, ◌||◌, ◌∙◌, ◌∷◌, ◌≡◌, ◌≢◌, ◌≤◌,
}
use platform_api.Manifest.Records.{
  ManifestArtifact, ManifestSection, Sections, artifact_metadata, engineering_drawings,
  manifests_and_schedules, system_images,
}
use platform_api.Manifest.Build.{
  Archived, ByKind, add_rows, add_system, all_artifacts, append_to, assign_codes, build,
  group_by_kind, letter_of, no_artifacts, number_from, row_of, sections_of,
}

abbrev pub codes_of : List ManifestArtifact → List Text
codes_of arts = map (λ (a : ManifestArtifact). a.code) arts

-- A code of a section, counted from `i` on.
IsCode : Text → ℕ → Text → Type 0
IsCode letter i s = (j : ℕ) × (i ≤ j) × (s ≡ letter ++ decimal j)

number_from-IsCode :
    (letter : Text) (i k : ℕ) (arts : List ManifestArtifact)
    → k ≤ i
    → All (IsCode letter k) (codes_of (number_from letter i arts))
unfolding number_from IsCode
number_from-IsCode letter i k [] h = tt
number_from-IsCode letter i k (art ∷ arts) h =
    ((i, h, refl), number_from-IsCode letter (i + 1) k arts (omega arith))

-- An earlier code is not among the later ones.
earlier_code-free :
    (letter : Text) (k i : ℕ) (codes : List Text)
    → k < i
    → All (IsCode letter i) codes
    → contains (letter ++ decimal k) codes ≡ false
unfolding IsCode
earlier_code-free letter k i [] h a = refl
earlier_code-free letter k i (s ∷ codes) h ((j, le, e), a) =
    rw
      (text_eq_of_ne s (letter ++ decimal k) (λ q. absurd (
        omega (
          arith,
          decimal_injective j k (append_cancel_left letter (decimal j) (decimal k) (sym e ∙ q)),
        ))))
      (earlier_code-free letter k i codes h a)

number_from-Distinct :
    (letter : Text) (i : ℕ) (arts : List ManifestArtifact)
    → Distinct (codes_of (number_from letter i arts))
unfolding number_from
number_from-Distinct letter i [] = tt
number_from-Distinct letter i (art ∷ arts) = (
  earlier_code-free letter i (i + 1) (codes_of (number_from letter (i + 1) arts)) (omega arith)
      (number_from-IsCode letter (i + 1) (i + 1) arts (omega arith)),
  number_from-Distinct letter (i + 1) arts,
)

-- Codes of another letter are not among those of one letter.
other_letter-free :
    (a b : ℕ) (i : ℕ) (s : Text) (codes : List Text)
    → a ≢ b
    → IsCode (a ∷ []) i s
    → All (IsCode (b ∷ []) i) codes
    → contains s codes ≡ false
unfolding IsCode
other_letter-free a b i s [] n h all_b = refl
other_letter-free a b i s (t ∷ codes) n (j, le, e) ((k, le', e'), all_b) =
    ground (arith, other_letter-free a b i s codes n (j, le, e) all_b)

Distinct-append :
    (xs ys : List Text)
    → Distinct xs
    → Distinct ys
    → All (λ s. contains s ys ≡ false) xs
    → Distinct (xs ++ ys)
Distinct-append [] ys dx dy h = dy
Distinct-append (x ∷ xs) ys (nx, dx) dy (p, h) =
    (rw (contains-append x xs ys, nx) p, Distinct-append xs ys dx dy h)

All-contains-append :
    (zs xs ys : List Text)
    → All (λ s. contains s xs ≡ false) zs
    → All (λ s. contains s ys ≡ false) zs
    → All (λ s. contains s (xs ++ ys) ≡ false) zs
All-contains-append [] xs ys h k = tt
All-contains-append (z ∷ zs) xs ys (p, h) (q, k) =
    (rw (contains-append z xs ys, p) q, All-contains-append zs xs ys h k)

letters_apart :
    (a b : ℕ) (i : ℕ) (xs ys : List Text)
    → a ≢ b
    → All (IsCode (a ∷ []) i) xs
    → All (IsCode (b ∷ []) i) ys
    → All (λ s. contains s ys ≡ false) xs
letters_apart a b i xs ys n hx hy = All-map xs (λ s p. other_letter-free a b i s ys n p hy) hx

-- The three sections stay as they are through the whole build.
abbrev tags : Sections → List ManifestSection
tags [] = []
tags ((s, arts) ∷ rest) = s ∷ tags rest

tags-append_to :
    (s : ManifestSection) (art : ManifestArtifact) (secs : Sections)
    → tags (append_to s art secs) ≡ tags secs
unfolding append_to
tags-append_to s art [] = refl
tags-append_to s art ((t, arts) ∷ rest) = ground (arith, tags-append_to s art rest)

tags-add_system :
    (secs : Sections) (arts : List ManifestArtifact) → tags (add_system secs arts) ≡ tags secs
unfolding add_system
tags-add_system secs [] = refl
tags-add_system secs (art ∷ arts) =
    tags-add_system (append_to system_images art secs) arts ∙ tags-append_to system_images art secs

tags-add_rows :
    (u : Unicode) (secs : Sections) (groups : ByKind) → tags (add_rows u secs groups) ≡ tags secs
unfolding add_rows row_of
tags-add_rows u secs [] = refl
tags-add_rows u secs ((first, files) ∷ groups) =
    elim (Option-cases (artifact_metadata first.kind)) [
      | inl e ↦ rw (e, add_rows) (tags-add_rows u secs groups)
      | inr (meta, e) ↦
          let row = row_of u meta first files in
          rw (e, add_rows)
            (tags-add_rows u (append_to meta.section row secs) groups
              ∙ tags-append_to meta.section row secs)
    ]

abbrev three : List ManifestSection
three = system_images ∷ engineering_drawings ∷ manifests_and_schedules ∷ []

-- the letter of the system images
abbrev image_letter : Bool → ℕ
image_letter cloud = if cloud then b'C' else b'A'

codes-Distinct :
    (cloud : Bool) (a d m : List ManifestArtifact)
    → Distinct (
        codes_of (
          number_from (image_letter cloud ∷ []) 1 a
          ++ (number_from (b'D' ∷ []) 1 d ++ (number_from (b'M' ∷ []) 1 m ++ []))))
codes-Distinct cloud a d m =
    let l = image_letter cloud in
    let ca = codes_of (number_from (l ∷ []) 1 a) in
    let cd = codes_of (number_from (b'D' ∷ []) 1 d) in
    let cm = codes_of (number_from (b'M' ∷ []) 1 m) in
    let ia = number_from-IsCode (l ∷ []) 1 1 a (omega arith) in
    let id = number_from-IsCode (b'D' ∷ []) 1 1 d (omega arith) in
    let im = number_from-IsCode (b'M' ∷ []) 1 1 m (omega arith) in
    simp (map-append, append-nil)
      (Distinct-append ca (cd ++ cm) (number_from-Distinct (l ∷ []) 1 a)
        (Distinct-append cd cm (number_from-Distinct (b'D' ∷ []) 1 d)
          (number_from-Distinct (b'M' ∷ []) 1 m)
          (letters_apart b'D' b'M' 1 cd cm (omega arith) id im))
        (All-contains-append ca cd cm (letters_apart l b'D' 1 ca cd (ground arith) ia id)
          (letters_apart l b'M' 1 ca cm (ground arith) ia im)))

assign_codes-Distinct :
    (cloud : Bool) (secs : Sections)
    → tags secs ≡ three
    → Distinct (codes_of (all_artifacts (assign_codes cloud secs)))
unfolding assign_codes
assign_codes-Distinct cloud [] h = cc
assign_codes-Distinct cloud ((s, a) ∷ []) h = cc
assign_codes-Distinct cloud ((s, a) ∷ (t, d) ∷ []) h = cc
assign_codes-Distinct true
      ((system_images, a) ∷ (engineering_drawings, d) ∷ (manifests_and_schedules, m) ∷ []) h =
    codes-Distinct true a d m
assign_codes-Distinct false
      ((system_images, a) ∷ (engineering_drawings, d) ∷ (manifests_and_schedules, m) ∷ []) h =
    codes-Distinct false a d m
assign_codes-Distinct cloud _ h = cc

-- No two rows of a built manifest carry the same code, whatever was handed in.
pub build-Distinct_codes :
    (u : Unicode) (bundle_url name : Text) (archived : List Archived)
    (system : List ManifestArtifact) (when : Text) (cloud : Bool)
    → Distinct
        (codes_of (all_artifacts (build u bundle_url name archived system when cloud).sections))
unfolding build sections_of
build-Distinct_codes u bundle_url name archived system when cloud =
    assign_codes-Distinct cloud
      (add_rows u (add_system no_artifacts system) (group_by_kind [] archived))
      (tags-add_rows u (add_system no_artifacts system) (group_by_kind [] archived)
        ∙ tags-add_system no_artifacts system)

-- A code is a letter and digits, so it can name a folder.
digits-Without : (s : Text) → All (λ c. is_digit c ≡ true) s → Without b'/' s
digits-Without [] h = tt
digits-Without (c ∷ s) (p, h) = (ground arith, digits-Without s h)

abbrev IsFolderCode : Text → Type 0
IsFolderCode s = ((not (is_empty s || text_eq s (text "."))) ≡ true) × Without b'/' s

folder_code :
    (letter i : ℕ) → b'A' ≤ letter → letter ≤ b'Z' → IsFolderCode ((letter ∷ []) ++ decimal i)
folder_code letter i lo hi =
    (ground arith, (ground arith, digits-Without (decimal i) (decimal-digits i)))

abbrev RowsHaveFolders : List ManifestArtifact → Type 0
RowsHaveFolders arts = All (λ (a : ManifestArtifact). IsFolderCode a.code) arts

number_from-folders :
    (letter i : ℕ) (arts : List ManifestArtifact)
    → b'A' ≤ letter
    → letter ≤ b'Z'
    → RowsHaveFolders (number_from (letter ∷ []) i arts)
unfolding number_from
number_from-folders letter i [] lo hi = tt
number_from-folders letter i (a ∷ arts) lo hi =
    (folder_code letter i lo hi, number_from-folders letter (i + 1) arts lo hi)

number_from-folders_of :
    (cloud : Bool) (s : ManifestSection) (arts : List ManifestArtifact)
    → RowsHaveFolders (number_from (letter_of cloud s) 1 arts)
unfolding letter_of
number_from-folders_of true system_images arts =
    number_from-folders b'C' 1 arts (omega arith) (omega arith)
number_from-folders_of false system_images arts =
    number_from-folders b'A' 1 arts (omega arith) (omega arith)
number_from-folders_of true engineering_drawings arts =
    number_from-folders b'D' 1 arts (omega arith) (omega arith)
number_from-folders_of false engineering_drawings arts =
    number_from-folders b'D' 1 arts (omega arith) (omega arith)
number_from-folders_of true manifests_and_schedules arts =
    number_from-folders b'M' 1 arts (omega arith) (omega arith)
number_from-folders_of false manifests_and_schedules arts =
    number_from-folders b'M' 1 arts (omega arith) (omega arith)

assign_codes-folders :
    (cloud : Bool) (secs : Sections) → RowsHaveFolders (all_artifacts (assign_codes cloud secs))
unfolding assign_codes
assign_codes-folders cloud [] = tt
assign_codes-folders cloud ((s, arts) ∷ rest) =
    All-append (λ (a : ManifestArtifact). IsFolderCode a.code) _ _
      (number_from-folders_of cloud s arts) (assign_codes-folders cloud rest)

pub IsFolder-build :
    (u : Unicode) (bundle_url name : Text) (archived : List Archived)
    (system : List ManifestArtifact) (when : Text) (cloud : Bool)
    → All
        (λ (a : ManifestArtifact).
          ((not (is_empty a.code || text_eq a.code (text "."))) ≡ true) × Without b'/' a.code)
        (all_artifacts (build u bundle_url name archived system when cloud).sections)
unfolding build sections_of
IsFolder-build u bundle_url name archived system when cloud =
    assign_codes-folders cloud
      (add_rows u (add_system no_artifacts system) (group_by_kind [] archived))
