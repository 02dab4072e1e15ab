-- ===== src/Manifest/Build.antt =====
-- src/manifest/manifest_service.py: one order's manifest.
pub mod Weights
pub mod Files
pub mod Codes
use platform_api.Prelude.{
  Bool, List, Option, String, Text, Unicode, [], ascii, decimal, false, if◌then◌else◌, is_empty,
  join, keep, length, map, none, not, refl, some, split, sum, text, true, ℕ, ◌&&◌, ◌++◌, ◌+◌, ◌∷◌,
  ◌≡◌,
}
use platform_api.Edp.Artifacts.{ArtifactKind, ArtifactRef, dtm, same_kind, sld, sld_hmi_svg}
use platform_api.Manifest.Records.{
  ArtifactMetadata, DeploymentManifest, ManifestArtifact, ManifestFile, ManifestSection, Sections,
  artifact_metadata, engineering_drawings, manifests_and_schedules, section_letter, system_images,
}
use platform_api.Manifest.Summary.{subtitle_for}

-- an archived file: its reference and its size in bytes
abbrev pub Archived : Type 0
Archived = ArtifactRef × ℕ

-- `by_kind`: the first reference of each kind, and all files of that kind
abbrev pub ByKind : Type 0
ByKind = List (ArtifactRef × List Archived)

-- one round of the loop that groups the archived files by kind
pub add_archived : ByKind → Archived → ByKind
unfolding same_kind
add_archived [] (ref, size) = (ref, (ref, size) ∷ []) ∷ []
add_archived ((first, files) ∷ groups) (ref, size) =
    if same_kind first.kind ref.kind
    then (first, files ++ (ref, size) ∷ []) ∷ groups
    else (first, files) ∷ add_archived groups (ref, size)

pub group_by_kind : ByKind → List Archived → ByKind
group_by_kind groups [] = groups
group_by_kind groups (a ∷ rest) = group_by_kind (add_archived groups a) rest

abbrev pub same_section : ManifestSection → ManifestSection → Bool
same_section system_images system_images = true
same_section engineering_drawings engineering_drawings = true
same_section manifests_and_schedules manifests_and_schedules = true
same_section _ _ = false

-- `sections[s].append(art)`
pub append_to : ManifestSection → ManifestArtifact → Sections → Sections
append_to s art [] = []
append_to s art ((t, arts) ∷ rest) =
    if same_section s t then (t, arts ++ art ∷ []) ∷ rest else (t, arts) ∷ append_to s art rest

abbrev pub no_artifacts : Sections
no_artifacts = (system_images, []) ∷ (engineering_drawings, []) ∷ (manifests_and_schedules, []) ∷ []

pub add_system : Sections → List ManifestArtifact → Sections
add_system sections [] = sections
add_system sections (art ∷ arts) = add_system (append_to system_images art sections) arts

-- `subtitle_for(…) or meta.subtitle`: an empty text counts as missing
abbrev pub or_else : Option Text → Option Text → Option Text
or_else none d = d
or_else (some []) d = d
or_else (some (c ∷ s)) d = some (c ∷ s)

abbrev pub refs_of : List Archived → List ArtifactRef
refs_of [] = []
refs_of ((r, size) ∷ files) = r ∷ refs_of files

-- the codes of one section, counted from `i`
pub number_from : Text → ℕ → List ManifestArtifact → List ManifestArtifact
unfolding decimal
number_from letter i [] = []
number_from letter i (art ∷ arts) =
    record art { code = letter ++ decimal i } ∷ number_from letter (i + 1) arts

pub letter_of : Bool → ManifestSection → Text
letter_of cloud section =
    if cloud && same_section section system_images then text "C" else section_letter section

pub assign_codes : Bool → Sections → Sections
unfolding number_from letter_of
assign_codes cloud [] = []
assign_codes cloud ((section, arts) ∷ rest) =
    (section, number_from (letter_of cloud section) 1 arts) ∷ assign_codes cloud rest

-- the generator `for arts in sections.values() for a in arts`
abbrev pub all_artifacts : Sections → List ManifestArtifact
all_artifacts [] = []
all_artifacts ((s, arts) ∷ rest) = arts ++ all_artifacts rest

abbrev pub all_files : List ManifestArtifact → List ManifestFile
all_files [] = []
all_files (a ∷ arts) = a.files ++ all_files arts

module _ (u : Unicode) where
  pub file_of : Archived → ManifestFile
  file_of (r, size) = record { format = u.upper r.format; size_bytes = size; url = r.url }

  pub row_of : ArtifactMetadata → ArtifactRef → List Archived → ManifestArtifact
  unfolding file_of subtitle_for
  row_of meta first files = record {
    code = [];
    name = meta.name;
    subtitle = or_else (subtitle_for first.kind (refs_of files)) meta.subtitle;
    files = map file_of files;
  }

  -- the loop over the kinds; a kind with no metadata is skipped
  pub add_rows : Sections → ByKind → Sections
  unfolding row_of append_to artifact_metadata
  add_rows sections [] = sections
  add_rows sections ((first, files) ∷ groups) = elim (artifact_metadata first.kind) [
    | none ↦ add_rows sections groups
    | some meta ↦ add_rows (append_to meta.section (row_of meta first files) sections) groups
  ]

  -- `"".join(c if c.isalnum() else " " …).split()`: only the blanks that were put in are left
  pub slugify : Text → Text
  slugify name = join (text "-") (
      keep (λ w. not (is_empty w))
        (split 32 (map (λ c. if u.is_alnum c then c else 32) (u.lower name))))

  pub sections_of : List Archived → List ManifestArtifact → Bool → Sections
  unfolding add_rows add_system group_by_kind add_archived assign_codes
  sections_of archived system_artifacts cloud =
      assign_codes cloud
        (add_rows (add_system no_artifacts system_artifacts) (group_by_kind [] archived))

  -- `when` is `built_at`, or the clock's time where the caller gives none.
  unfoldable pub build :
      Text → Text → List Archived → List ManifestArtifact → Text → Bool → DeploymentManifest
  unfolding sections_of slugify
  build bundle_url site_display_name archived system_artifacts when cloud =
      let sections = sections_of archived system_artifacts cloud in
      let arts = all_artifacts sections in
      record {
        site_slug = slugify site_display_name;
        site_display_name = site_display_name;
        bundle_id = text "ARCNODE-EMS-1.0.0";
        revision = 1;
        supersedes = none;
        built_at = when;
        signed = false;
        key_id = none;
        total_size_bytes = sum (map (λ (f : ManifestFile). f.size_bytes) (all_files arts));
        total_file_count = sum (map (λ (a : ManifestArtifact). length a.files) arts);
        artifact_count = length arts;
        bundle_url = some bundle_url;
        bundle_curl_url = some bundle_url;
        cloud = cloud;
        sections = sections;
      }

abbrev drawing : String → ArtifactKind → Archived
drawing url kind = (
  record { kind = kind; format = text "pdf"; url = text url; plate_id = none; summary = none },
  7,
)

build_test :
    (build ascii
      (text "u")
      (text "Brookside DC-1")
      (drawing "a" sld ∷ drawing "b" dtm ∷ drawing "c" sld ∷ drawing "d" sld_hmi_svg ∷ [])
      []
      []
      true).total_size_bytes
    ≡ 21
unfolding build
build_test = refl

slugify_test : slugify ascii (text "Brookside DC-1") ≡ text "brookside-dc-1"
unfolding slugify
slugify_test = refl
