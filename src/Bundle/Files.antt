-- ===== src/Bundle/Files.antt =====
-- src/bundle/bundle_record.py and `bundle_files_for` of src/bundle/bundle_service.py.
pub mod Laws
use platform_api.Prelude.{
  List, Result, Text, [], after_last, and_then, map, none, ok, refl, text, ◌++◌, ◌∷◌, ◌≡◌,
}
use platform_api.Manifest.Records.{ManifestArtifact, ManifestFile, Sections, engineering_drawings}
use platform_api.Manifest.Build.{all_artifacts, all_files}
use platform_api.Bundle.Paths.{PathError}
use platform_api.Bundle.Names.{unique_names}

pub record BundleFile : Type 0 where
  pub path : Text
  pub url : Text

module _ (url_path : Text → Text) where
  -- the wanted zip path of each file, artifact by artifact; `url_path` is `urlparse(url).path`
  pub wanted_paths : List ManifestArtifact → List Text
  wanted_paths [] = []
  wanted_paths (a ∷ arts) =
      map (λ (f : ManifestFile). a.code ++ (text "/" ++ after_last b'/' (url_path f.url))) a.files
      ++ wanted_paths arts

abbrev pub zip_entries : List Text → List ManifestFile → List BundleFile
zip_entries [] files = []
zip_entries (p ∷ ps) [] = []
zip_entries (p ∷ ps) (f ∷ files) = record { path = p; url = f.url } ∷ zip_entries ps files

unfoldable pub bundle_files_for : (Text → Text) → Sections → Result PathError (List BundleFile)
unfolding wanted_paths unique_names
bundle_files_for url_path sections =
    let arts = all_artifacts sections in
    and_then (unique_names [] (wanted_paths url_path arts))
      λ paths. ok (zip_entries paths (all_files arts))

abbrev two_plates : Sections
two_plates =
    (
      engineering_drawings,
      record {
        code = text "D3";
        name = [];
        subtitle = none;
        files =
            record { format = []; size_bytes = 1; url = text "s3://b/x/plate.dxf" }
            ∷ record { format = []; size_bytes = 1; url = text "s3://b/y/plate.dxf" }
            ∷ [];
      }
          ∷ [],
    )
    ∷ []

bundle_files_for_test :
    bundle_files_for (λ s. s) two_plates
    ≡ ok (
        record { path = text "D3/plate.dxf"; url = text "s3://b/x/plate.dxf" }
        ∷ record { path = text "D3/plate-2.dxf"; url = text "s3://b/y/plate.dxf" }
        ∷ [])
unfolding bundle_files_for
bundle_files_for_test = refl
