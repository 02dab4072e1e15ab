-- ===== src/Manifest/Build/Files.antt =====
-- The files of a manifest that src/manifest/manifest_service.py builds.
use platform_api.Prelude.{
  Bool, List, Text, Unicode, [], arith, length, map, refl, sum, ℕ, ◌+◌, ◌∙◌, ◌∷◌, ◌≡◌,
}
use platform_api.Manifest.Records.{
  ManifestArtifact, ManifestFile, Sections, engineering_drawings, manifests_and_schedules,
  system_images,
}
use platform_api.Manifest.Build.{
  Archived, add_rows, add_system, all_artifacts, all_files, append_to, build, group_by_kind,
  no_artifacts, sections_of,
}
use platform_api.Manifest.Build.Weights.{
  IsFull, IsFull-append_to, artifact_weight, artifact_weight-cons, file_weight, has_section,
  listed_weight, section_weight, weight-add_rows, weight-add_system, weight-assign_codes,
  weight-group_by_kind,
}

IsFull-no_artifacts : IsFull no_artifacts
unfolding IsFull has_section
IsFull-no_artifacts system_images = refl
IsFull-no_artifacts engineering_drawings = refl
IsFull-no_artifacts manifests_and_schedules = refl

IsFull-add_system :
    (secs : Sections) (arts : List ManifestArtifact) → IsFull secs → IsFull (add_system secs arts)
unfolding add_system
IsFull-add_system secs [] h = h
IsFull-add_system secs (art ∷ arts) h =
    IsFull-add_system (append_to system_images art secs) arts
      (IsFull-append_to system_images art secs h)

module _ (w : ManifestFile → ℕ) (u : Unicode) (archived : List Archived)
    (system : List ManifestArtifact) (cloud : Bool) where
  weight-sections_of :
      section_weight w (sections_of u archived system cloud)
      ≡ artifact_weight w system + listed_weight w u archived
  unfolding sections_of
  weight-sections_of =
      let secs = add_system no_artifacts system in
      let groups = group_by_kind [] archived in
      omega (
        arith,
        weight-assign_codes w cloud (add_rows u secs groups),
        weight-add_rows w u secs groups (IsFull-add_system no_artifacts system IsFull-no_artifacts),
        weight-group_by_kind w u [] archived,
        weight-add_system w no_artifacts system IsFull-no_artifacts,
      )

file_weight-ones : (fs : List ManifestFile) → file_weight (λ _. 1) fs ≡ length fs
file_weight-ones [] = refl
file_weight-ones (f ∷ fs) = omega (arith, file_weight-ones fs)

length-files :
    (arts : List ManifestArtifact)
    → sum (map (λ (a : ManifestArtifact). length a.files) arts) ≡ artifact_weight (λ _. 1) arts
length-files [] = refl
length-files (a ∷ arts) =
    omega (arith, length-files arts, artifact_weight-cons (λ _. 1) a arts, file_weight-ones a.files)

module _ (u : Unicode) (bundle_url name : Text) (archived : List Archived)
    (system : List ManifestArtifact) (when : Text) (cloud : Bool) where
  -- For every weight of files, the files of the built manifest weigh what the system artifacts'
  -- files and the archived files of the kinds with metadata weigh together: no file is lost, none
  -- is listed twice, and none of another kind is listed.
  pub build-keeps_files :
      (w : ManifestFile → ℕ)
      → sum (
          map w (
            all_files
              (all_artifacts (build u bundle_url name archived system when cloud).sections)))
        ≡ artifact_weight w system + listed_weight w u archived
  unfolding build
  build-keeps_files w = weight-sections_of w u archived system cloud

  -- The totals that the manifest states are those of the files that were handed in: the size in
  -- bytes and the number of the system artifacts' files and of the archived files of the kinds
  -- with metadata.
  pub build-totals :
      ((build u bundle_url name archived system when cloud).total_size_bytes
        ≡ artifact_weight (λ f. f.size_bytes) system + listed_weight (λ f. f.size_bytes) u archived)
      × ((build u bundle_url name archived system when cloud).total_file_count
          ≡ artifact_weight (λ _. 1) system + listed_weight (λ _. 1) u archived)
  unfolding build
  build-totals = (
    weight-sections_of (λ f. f.size_bytes) u archived system cloud,
    length-files (all_artifacts (sections_of u archived system cloud))
        ∙ weight-sections_of (λ _. 1) u archived system cloud,
  )
