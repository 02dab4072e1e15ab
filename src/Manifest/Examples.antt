-- ===== src/Manifest/Examples.antt =====
-- Runs of src/manifest/manifest_service.py on small inputs.
use platform_api.Prelude.{
  Distinct, List, String, [], ascii, false, map, none, sum, text, true, ◌+◌, ◌∷◌, ◌≡◌,
}
use platform_api.Edp.Artifacts.{ArtifactKind, dtm, sld, sld_hmi_svg}
use platform_api.Manifest.Records.{ManifestArtifact, ManifestFile}
use platform_api.Manifest.Build.{Archived, all_artifacts, all_files, build}
use platform_api.Manifest.Build.Files.{build-keeps_files, build-totals}
use platform_api.Manifest.Build.Codes.{build-Distinct_codes, codes_of}
use platform_api.Manifest.Build.Weights.{artifact_weight, listed_weight}

abbrev artifact : String → ArtifactKind → Archived
artifact url kind = (
  record { kind = kind; format = text "pdf"; url = text url; plate_id = none; summary = none },
  7,
)

abbrev four : List Archived
four = artifact "a" sld ∷ artifact "b" dtm ∷ artifact "c" sld ∷ artifact "d" sld_hmi_svg ∷ []

abbrev apk : ManifestArtifact
apk = record {
  code = [];
  name = text "EMS Field Client";
  subtitle = none;
  files = record { format = text "APK"; size_bytes = 100; url = text "e" } ∷ [];
}

build-keeps_files_example :
    sum (
      map
        (λ (f : ManifestFile). f.size_bytes)
        (all_files (
          all_artifacts
            (build ascii (text "u") (text "Site") four (apk ∷ []) (text "now") true).sections)))
    ≡ artifact_weight (λ f. f.size_bytes) (apk ∷ []) + listed_weight (λ f. f.size_bytes) ascii four
build-keeps_files_example =
    build-keeps_files ascii (text "u") (text "Site") four (apk ∷ []) (text "now") true
      (λ f. f.size_bytes)

build-totals_example :
    ((build ascii (text "u") (text "Site") four (apk ∷ []) (text "now") true).total_size_bytes
      ≡ artifact_weight (λ f. f.size_bytes) (apk ∷ [])
        + listed_weight (λ f. f.size_bytes) ascii four)
    × ((build ascii (text "u") (text "Site") four (apk ∷ []) (text "now") true).total_file_count
        ≡ artifact_weight (λ _. 1) (apk ∷ []) + listed_weight (λ _. 1) ascii four)
build-totals_example = build-totals ascii (text "u") (text "Site") four (apk ∷ []) (text "now") true

build-Distinct_codes_example : Distinct (
    codes_of (
      all_artifacts
        (build ascii (text "u") (text "Site") four (apk ∷ []) (text "now") false).sections))
build-Distinct_codes_example =
    build-Distinct_codes ascii (text "u") (text "Site") four (apk ∷ []) (text "now") false
