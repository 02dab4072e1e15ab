-- ===== src/Bundle/Examples.antt =====
-- Runs of src/bundle/bundle_service.py on small inputs.
use platform_api.Prelude.{
  Distinct, List, String, Text, [], ascii, err, length, map, none, ok, refl, text, true, ◌↔◌, ◌∷◌,
  ◌≡◌, ◌≢◌,
}
use platform_api.Edp.Artifacts.{interface_plate}
use platform_api.Manifest.Records.{ManifestFile}
use platform_api.Manifest.Build.{Archived, all_artifacts, all_files, build}
use platform_api.Bundle.Paths.{out_of_fuel, unique_path}
use platform_api.Bundle.Paths.Fresh.{unique_path-in_fuel}
use platform_api.Bundle.Paths.First.{IsFirstFree, unique_path-first}
use platform_api.Bundle.Names.{archive_keys}
use platform_api.Bundle.Names.Laws.{archive_keys-Distinct}
use platform_api.Bundle.Files.{BundleFile, bundle_files_for}
use platform_api.Bundle.Files.Laws.{build-bundles}

abbrev two_taken : List Text
two_taken = text "D3/plate.dxf" ∷ text "D3/plate-2.dxf" ∷ []

unique_path-in_fuel_example : unique_path (text "D3/plate.dxf") two_taken ≢ err out_of_fuel
unique_path-in_fuel_example = unique_path-in_fuel (text "D3/plate.dxf") two_taken

picked : unique_path (text "D3/plate.dxf") two_taken ≡ ok (text "D3/plate-3.dxf")
unfolding unique_path
picked = refl

unique_path-first_example :
    (unique_path (text "D3/plate.dxf") two_taken ≡ ok (text "D3/plate-3.dxf"))
    ↔ IsFirstFree (text "D3/plate.dxf") two_taken (text "D3/plate-3.dxf")
unique_path-first_example =
    unique_path-first (text "D3/plate.dxf") two_taken (text "D3/plate-3.dxf")

abbrev two_urls : List Text
two_urls = text "s3://b/x/assembly.step" ∷ text "s3://b/y/assembly.step" ∷ []

archive_keys-Distinct_example :
    (keys : List Text) × (archive_keys (text "42") two_urls ≡ ok keys)
    × Distinct keys
    × (length keys ≡ 2)
archive_keys-Distinct_example = archive_keys-Distinct (text "42") two_urls (refl, (refl, tt))

abbrev drawing : String → Archived
drawing url = (
  record {
    kind = interface_plate;
    format = text "dxf";
    url = text url;
    plate_id = none;
    summary = none;
  },
  7,
)

abbrev two_drawings : List Archived
two_drawings = drawing "s3://b/x/plate.dxf" ∷ drawing "s3://b/y/plate.dxf" ∷ []

build-bundles_example :
    (entries : List BundleFile) × (bundle_files_for
        (λ s. s)
        (build ascii (text "u") (text "Site") two_drawings [] (text "now") true).sections
      ≡ ok entries)
    × Distinct (map (λ (e : BundleFile). e.path) entries)
    × (map (λ (e : BundleFile). e.url) entries
        ≡ map
            (λ (f : ManifestFile). f.url)
            (all_files (
              all_artifacts
                (build ascii (text "u") (text "Site") two_drawings [] (text "now") true).sections)))
build-bundles_example =
    build-bundles (λ s. s) ascii (text "u") (text "Site") two_drawings [] (text "now") true
