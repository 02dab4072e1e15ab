-- ===== src/Edp/Artifacts.antt =====
-- src/edp_client/edp_artifacts.py: the shapes that edp-api answers with.
use platform_api.Prelude.{
  Bool, List, Option, Text, [], arith, lookup, text, text_eq, true, ℕ, ◌∷◌, ◌≡◌,
}

pub data JobStatus : Type 0 where
  running complete failed : JobStatus

pub data ArtifactKind : Type 0 where
  bom compute_container_3d grid_container_3d interface_plate sld sld_hmi_svg : ArtifactKind
  pid_cooling comms_diagram cable_hose_schedule install_sequence dtm : ArtifactKind

pub ArtifactKind-discrete : Discrete ArtifactKind
ArtifactKind-discrete = hlevel

-- the enum's `.value`
unfoldable pub kind_value : ArtifactKind → Text
kind_value bom = text "bom"
kind_value compute_container_3d = text "compute_container_3d"
kind_value grid_container_3d = text "grid_container_3d"
kind_value interface_plate = text "interface_plate"
kind_value sld = text "sld"
kind_value sld_hmi_svg = text "sld_hmi_svg"
kind_value pid_cooling = text "pid_cooling"
kind_value comms_diagram = text "comms_diagram"
kind_value cable_hose_schedule = text "cable_hose_schedule"
kind_value install_sequence = text "install_sequence"
kind_value dtm = text "dtm"

-- The members' values differ, so a test on values is a test on members.
unfoldable pub same_kind : ArtifactKind → ArtifactKind → Bool
unfolding kind_value
same_kind a b = text_eq (kind_value a) (kind_value b)

pub same_kind→eq : (a b : ArtifactKind) → same_kind a b ≡ true → a ≡ b
unfolding same_kind
same_kind→eq a b h = ground arith

pub same_kind_refl : (a : ArtifactKind) → same_kind a a ≡ true
unfolding same_kind
same_kind_refl a = ground arith

pub record ArtifactSummary : Type 0 where
  pub line_items : Option ℕ
  pub vendors : Option ℕ
  pub runs : Option ℕ
  pub media_kinds : Option ℕ
  pub devices : Option ℕ
  pub buses : Option ℕ
  pub plates : Option ℕ

pub record ArtifactRef : Type 0 where
  pub kind : ArtifactKind
  pub format : Text
  pub url : Text
  pub plate_id : Option Text
  pub summary : Option ArtifactSummary

pub record JobCreated : Type 0 where
  pub job_id : Text
  pub status_url : Text
  pub edp_artifact_urls : List ArtifactRef

pub record JobResult : Type 0 where
  pub status : JobStatus
  pub edp_artifact_urls : List ArtifactRef
  pub error : Option Text

abbrev content_types : List (Text × Text)
content_types =
    (text "json", text "application/json")
    ∷ (text "xlsx", text "application/vnd.openxmlformats-officedocument.spreadsheetml.sheet")
    ∷ (text "dxf", text "image/vnd.dxf")
    ∷ (text "pdf", text "application/pdf")
    ∷ (text "svg", text "image/svg+xml")
    ∷ (text "step", text "model/step")
    ∷ (text "glb", text "model/gltf-binary")
    ∷ []

-- `none` is the KeyError of an unknown format.
unfoldable pub content_type_for : Text → Option Text
content_type_for artifact_format = lookup artifact_format content_types
