-- ===== src/Bundle/Files/Laws.antt =====
-- The zip entries of src/bundle/bundle_service.py for a manifest.
use platform_api.Prelude.{
  All, All-append, Bool, Distinct, List, Text, Unicode, Without, [], after_last, arith, length,
  length-append, length-map, map, ok, refl, subst, sym, text, true, ◌++◌, ◌∙◌, ◌∷◌, ◌≡◌,
}
use platform_api.Manifest.Records.{ManifestArtifact, ManifestFile, Sections}
use platform_api.Manifest.Build.{Archived, all_artifacts, all_files, build}
use platform_api.Manifest.Build.Codes.{IsFolder-build}
use platform_api.Bundle.Paths.{is_part, slash}
use platform_api.Bundle.Paths.Fresh.{HasName, HasName-of_part}
use platform_api.Bundle.Names.Laws.{unique_names-Distinct, unique_names-found}
use platform_api.Bundle.Files.{BundleFile, bundle_files_for, wanted_paths, zip_entries}

-- A row's code names a folder of the zip.
abbrev pub IsFolder : ManifestArtifact → Type 0
IsFolder a = (is_part a.code ≡ true) × Without slash a.code

module _ (url_path : Text → Text) where
  HasName-files :
      (code : Text) (files : List ManifestFile)
      → is_part code ≡ true
      → Without slash code
      → All HasName
          (map (λ (f : ManifestFile). code ++ (text "/" ++ after_last b'/' (url_path f.url))) files)
  HasName-files code [] h k = tt
  HasName-files code (f ∷ files) h k =
      (HasName-of_part code (after_last b'/' (url_path f.url)) h k, HasName-files code files h k)

  HasName-wanted_paths :
      (arts : List ManifestArtifact) → All IsFolder arts → All HasName (wanted_paths url_path arts)
  unfolding wanted_paths
  HasName-wanted_paths [] h = tt
  HasName-wanted_paths (a ∷ arts) ((p, q), h) =
      All-append HasName _ (wanted_paths url_path arts) (HasName-files a.code a.files p q)
        (HasName-wanted_paths arts h)

  length-wanted_paths :
      (arts : List ManifestArtifact) → length (wanted_paths url_path arts) ≡ length (all_files arts)
  unfolding wanted_paths
  length-wanted_paths [] = refl
  length-wanted_paths (a ∷ arts) =
      let wanted =
        map (λ (f : ManifestFile). a.code ++ (text "/" ++ after_last b'/' (url_path f.url)))
          a.files in
      omega (
        arith,
        length-append {0} wanted (wanted_paths url_path arts),
        length-append {0} a.files (all_files arts),
        length-map (λ (f : ManifestFile). a.code ++ (text "/" ++ after_last b'/' (url_path f.url)))
            a.files,
        length-wanted_paths arts,
      )

-- As many names as files: each file has its entry, under the given names.
zip_entries-parts :
    (names : List Text) (files : List ManifestFile)
    → length names ≡ length files
    → (map (λ (e : BundleFile). e.path) (zip_entries names files) ≡ names)
      × (map (λ (e : BundleFile). e.url) (zip_entries names files)
          ≡ map (λ (f : ManifestFile). f.url) files)
zip_entries-parts [] [] h = (refl, refl)
zip_entries-parts [] (f ∷ files) h = absurd (omega arith)
zip_entries-parts (n ∷ names) [] h = absurd (omega arith)
zip_entries-parts (n ∷ names) (f ∷ files) h =
    let (ps, us) = zip_entries-parts names files (omega arith) in (rw ps, rw us)

pub bundle_files_for-Distinct :
    (url_path : Text → Text) (sections : Sections)
    → All IsFolder (all_artifacts sections)
    → (entries : List BundleFile) × (bundle_files_for url_path sections ≡ ok entries)
      × Distinct (map (λ (e : BundleFile). e.path) entries)
      × (map (λ (e : BundleFile). e.url) entries
          ≡ map (λ (f : ManifestFile). f.url) (all_files (all_artifacts sections)))
unfolding bundle_files_for
bundle_files_for-Distinct url_path sections h =
    let arts = all_artifacts sections in
    let wanted = wanted_paths url_path arts in
    let (names, e) = unique_names-found wanted [] (HasName-wanted_paths url_path arts h) in
    let (distinct, _, same) = unique_names-Distinct wanted [] names e in
    let (ps, us) =
      zip_entries-parts names (all_files arts) (same ∙ length-wanted_paths url_path arts) in
    (zip_entries names (all_files arts), rw e, subst Distinct (sym ps) distinct, us)

-- For a built manifest the zip's entries are always found, whatever the file names: there is one
-- for each of the manifest's files, in order and with its URL, and no two have the same path.
pub build-bundles :
    (url_path : Text → Text) (u : Unicode) (bundle_url name : Text) (archived : List Archived)
    (system : List ManifestArtifact) (when : Text) (cloud : Bool)
    → (entries : List BundleFile) × (bundle_files_for url_path
          (build u bundle_url name archived system when cloud).sections
        ≡ ok entries)
      × Distinct (map (λ (e : BundleFile). e.path) entries)
      × (map (λ (e : BundleFile). e.url) entries
          ≡ map
              (λ (f : ManifestFile). f.url)
              (all_files
                (all_artifacts (build u bundle_url name archived system when cloud).sections)))
build-bundles url_path u bundle_url name archived system when cloud =
    bundle_files_for-Distinct url_path (build u bundle_url name archived system when cloud).sections
      (IsFolder-build u bundle_url name archived system when cloud)
