-- ===== src/Manifest/Build/Weights.antt =====
-- The weight of the files that src/manifest/manifest_service.py handles, through each step of the build.
use platform_api.Edp.Artifacts.{ArtifactKind, ArtifactRef, same_kind, same_kind→eq}
use platform_api.Prelude.{
  Bool, Bool-cases, List, Option-cases, Text, Unicode, [], ap, append_assoc, arith, false, inl, inr,
  map, map-append, none, refl, some, sum, sum-append, true, ℕ, ◌++◌, ◌+◌, ◌||◌, ◌∙◌, ◌∷◌, ◌≡◌,
}
use platform_api.Manifest.Records.{
  ArtifactMetadata, ManifestArtifact, ManifestFile, ManifestSection, Sections, artifact_metadata,
  system_images,
}
use platform_api.Manifest.Build.{
  Archived, ByKind, add_archived, add_rows, add_system, all_artifacts, all_files, append_to,
  assign_codes, file_of, group_by_kind, letter_of, number_from, row_of, same_section,
}

unfoldable pub has_section : ManifestSection → Sections → Bool
has_section s [] = false
has_section s ((t, arts) ∷ rest) = same_section s t || has_section s rest

pub has_section-append_to :
    (t s : ManifestSection) (art : ManifestArtifact) (secs : Sections)
    → has_section t (append_to s art secs) ≡ has_section t secs
unfolding has_section append_to
has_section-append_to t s art [] = refl
has_section-append_to t s art ((k, arts) ∷ rest) =
    ground (arith, has_section-append_to t s art rest)

unfoldable pub IsFull : Sections → Type 0
IsFull secs = (s : ManifestSection) → has_section s secs ≡ true

pub IsFull-append_to :
    (s : ManifestSection) (art : ManifestArtifact) (secs : Sections)
    → IsFull secs
    → IsFull (append_to s art secs)
unfolding IsFull
IsFull-append_to s art secs h t = has_section-append_to t s art secs ∙ h t

module _ (w : ManifestFile → ℕ) where
  -- the weight of a list of files, of artifacts and of sections
  abbrev pub file_weight : List ManifestFile → ℕ
  file_weight fs = sum (map w fs)

  abbrev pub artifact_weight : List ManifestArtifact → ℕ
  artifact_weight arts = file_weight (all_files arts)

  abbrev pub section_weight : Sections → ℕ
  section_weight secs = artifact_weight (all_artifacts secs)

  pub file_weight-append :
      (fs gs : List ManifestFile) → file_weight (fs ++ gs) ≡ file_weight fs + file_weight gs
  file_weight-append fs gs = rw map-append (sum-append (map w fs) (map w gs))

  pub all_files-append :
      (xs ys : List ManifestArtifact) → all_files (xs ++ ys) ≡ all_files xs ++ all_files ys
  all_files-append [] ys = refl
  all_files-append (a ∷ xs) ys = simp (all_files-append xs ys, append_assoc)

  pub artifact_weight-append :
      (xs ys : List ManifestArtifact)
      → artifact_weight (xs ++ ys) ≡ artifact_weight xs + artifact_weight ys
  artifact_weight-append xs ys =
      rw (all_files-append xs ys) (file_weight-append (all_files xs) (all_files ys))

  pub artifact_weight-cons :
      (a : ManifestArtifact) (arts : List ManifestArtifact)
      → artifact_weight (a ∷ arts) ≡ file_weight a.files + artifact_weight arts
  artifact_weight-cons a arts = file_weight-append a.files (all_files arts)

  pub section_weight-cons :
      (s : ManifestSection) (arts : List ManifestArtifact) (rest : Sections)
      → section_weight ((s, arts) ∷ rest) ≡ artifact_weight arts + section_weight rest
  section_weight-cons s arts rest = artifact_weight-append arts (all_artifacts rest)

  pub weight-append_to :
      (s : ManifestSection) (art : ManifestArtifact) (secs : Sections)
      → has_section s secs ≡ true
      → section_weight (append_to s art secs) ≡ section_weight secs + file_weight art.files
  unfolding has_section append_to
  weight-append_to s art [] h = cc
  weight-append_to s art ((t, arts) ∷ rest) h = elim (Bool-cases (same_section s t)) [
    | inl here ↦ rw here (
        omega (
          arith,
          section_weight-cons t (arts ++ art ∷ []) rest,
          section_weight-cons t arts rest,
          artifact_weight-append arts (art ∷ []),
          artifact_weight-cons art [],
        ))
    | inr later ↦ rw later (
        omega (
          arith,
          section_weight-cons t arts rest,
          section_weight-cons t arts (append_to s art rest),
          weight-append_to s art rest (rw later at h),
        ))
  ]

  pub weight-add_system :
      (secs : Sections) (arts : List ManifestArtifact)
      → IsFull secs
      → section_weight (add_system secs arts) ≡ section_weight secs + artifact_weight arts
  unfolding add_system
  weight-add_system secs [] h = omega arith
  weight-add_system secs (art ∷ arts) h = omega (
    arith,
    weight-add_system (append_to system_images art secs) arts
        (IsFull-append_to system_images art secs h),
    weight-append_to system_images art secs (unfold IsFull in h system_images),
    artifact_weight-cons art arts,
  )

  pub weight-number_from :
      (letter : Text) (i : ℕ) (arts : List ManifestArtifact)
      → all_files (number_from letter i arts) ≡ all_files arts
  unfolding number_from
  weight-number_from letter i [] = refl
  weight-number_from letter i (art ∷ arts) =
      ap (λ fs. art.files ++ fs) (weight-number_from letter (i + 1) arts)

  pub weight-assign_codes :
      (cloud : Bool) (secs : Sections)
      → section_weight (assign_codes cloud secs) ≡ section_weight secs
  unfolding assign_codes
  weight-assign_codes cloud [] = refl
  weight-assign_codes cloud ((s, arts) ∷ rest) = omega (
    arith,
    section_weight-cons s (number_from (letter_of cloud s) 1 arts) (assign_codes cloud rest),
    section_weight-cons s arts rest,
    ap file_weight (weight-number_from (letter_of cloud s) 1 arts),
    weight-assign_codes cloud rest,
  )

  module _ (u : Unicode) where
    -- what an archived file of kind `k` adds to the manifest
    abbrev pub listed_as : ArtifactKind → Archived → ℕ
    listed_as k a = elim (artifact_metadata k) [ none ↦ 0 | some meta ↦ w (file_of u a) ]

    abbrev pub listed_weight : List Archived → ℕ
    listed_weight [] = 0
    listed_weight ((r, size) ∷ archived) = listed_as r.kind (r, size) + listed_weight archived

    abbrev pub files_as : ArtifactKind → List Archived → ℕ
    files_as k [] = 0
    files_as k (a ∷ files) = listed_as k a + files_as k files

    abbrev pub group_weight : ByKind → ℕ
    group_weight [] = 0
    group_weight ((first, files) ∷ groups) = files_as first.kind files + group_weight groups

    pub files_as-append :
        (k : ArtifactKind) (xs ys : List Archived)
        → files_as k (xs ++ ys) ≡ files_as k xs + files_as k ys
    files_as-append k [] ys = omega arith
    files_as-append k (a ∷ xs) ys = omega (arith, files_as-append k xs ys)

    pub weight-add_archived :
        (groups : ByKind) (r : ArtifactRef) (size : ℕ)
        → group_weight (add_archived groups (r, size))
          ≡ group_weight groups + listed_as r.kind (r, size)
    unfolding add_archived
    weight-add_archived [] r size = omega arith
    weight-add_archived ((first, files) ∷ groups) r size =
        elim (Bool-cases (same_kind first.kind r.kind)) [
          | inl same ↦
              let e : first.kind ≡ r.kind = same_kind→eq _ _ same in
              rw same (
                omega (
                  arith,
                  files_as-append first.kind files ((r, size) ∷ []),
                  ap (λ k. listed_as k (r, size)) e,
                ))
          | inr other ↦ rw other (omega (arith, weight-add_archived groups r size))
        ]

    pub weight-group_by_kind :
        (groups : ByKind) (archived : List Archived)
        → group_weight (group_by_kind groups archived)
          ≡ group_weight groups + listed_weight archived
    unfolding group_by_kind
    weight-group_by_kind groups [] = omega arith
    weight-group_by_kind groups ((r, size) ∷ rest) = omega (
      arith,
      weight-add_archived groups r size,
      weight-group_by_kind (add_archived groups (r, size)) rest,
    )

    weight-map-file_of :
        (k : ArtifactKind) (meta : ArtifactMetadata) (files : List Archived)
        → artifact_metadata k ≡ some meta
        → file_weight (map (file_of u) files) ≡ files_as k files
    weight-map-file_of k meta [] e = refl
    weight-map-file_of k meta (a ∷ files) e = ground (arith, weight-map-file_of k meta files e)

    no_metadata_weight :
        (k : ArtifactKind) (files : List Archived)
        → artifact_metadata k ≡ none
        → files_as k files ≡ 0
    no_metadata_weight k [] e = refl
    no_metadata_weight k (a ∷ files) e = ground (arith, no_metadata_weight k files e)

    pub weight-add_rows :
        (secs : Sections) (groups : ByKind)
        → IsFull secs
        → section_weight (add_rows u secs groups) ≡ section_weight secs + group_weight groups
    unfolding add_rows row_of
    weight-add_rows secs [] h = omega arith
    weight-add_rows secs ((first, files) ∷ groups) h =
        elim (Option-cases (artifact_metadata first.kind)) [
          | inl e ↦
              rw (e, add_rows)
                (omega
                  (arith, no_metadata_weight first.kind files e, weight-add_rows secs groups h))
          | inr (meta, e) ↦
              let row = row_of u meta first files in
              rw (e, add_rows)
                (omega (
                  arith,
                  weight-map-file_of first.kind meta files e,
                  weight-append_to meta.section row secs (unfold IsFull in h meta.section),
                  weight-add_rows (append_to meta.section row secs) groups
                      (IsFull-append_to meta.section row secs h),
                ))
        ]
