-- ===== src/Manifest/Records.antt =====
-- src/manifest/manifest_record.py and src/manifest/artifact_metadata.py.
use platform_api.Prelude.{Bool, List, Option, String, Text, none, some, text, ℕ}
use platform_api.Edp.Artifacts.{
  ArtifactKind, bom, cable_hose_schedule, comms_diagram, compute_container_3d, dtm,
  grid_container_3d, install_sequence, interface_plate, pid_cooling, sld, sld_hmi_svg,
}

pub data ManifestSection : Type 0 where
  system_images engineering_drawings manifests_and_schedules : ManifestSection

pub record ManifestFile : Type 0 where
  pub format : Text
  pub size_bytes : ℕ
  pub url : Text

pub record ManifestArtifact : Type 0 where
  pub code : Text
  pub name : Text
  pub subtitle : Option Text
  pub files : List ManifestFile

-- `dict[ManifestSection, list[ManifestArtifact]]`, in insertion order
abbrev pub Sections : Type 0
Sections = List (ManifestSection × List ManifestArtifact)

-- `built_at` is a timestamp, in its own text form.
pub record DeploymentManifest : Type 0 where
  pub site_slug : Text
  pub site_display_name : Text
  pub bundle_id : Text
  pub revision : ℕ
  pub supersedes : Option Text
  pub built_at : Text
  pub signed : Bool
  pub key_id : Option Text
  pub total_size_bytes : ℕ
  pub total_file_count : ℕ
  pub artifact_count : ℕ
  pub bundle_url : Option Text
  pub bundle_curl_url : Option Text
  pub cloud : Bool
  pub sections : Sections

pub record ArtifactMetadata : Type 0 where
  pub section : ManifestSection
  pub name : Text
  pub subtitle : Option Text

abbrev metadata : ManifestSection → String → Option Text → ArtifactMetadata
metadata section name subtitle = record { section = section; name = text name; subtitle = subtitle }

-- `MOCK_ARTIFACT_METADATA.get(kind)`: `sld_hmi_svg` is in no section.
unfoldable pub artifact_metadata : ArtifactKind → Option ArtifactMetadata
artifact_metadata bom = some (metadata manifests_and_schedules "Bill of Materials" none)
artifact_metadata compute_container_3d = some (
    metadata engineering_drawings "Compute Container 3D"
      (some (text "Container shell · racks · DLC manifolds")))
artifact_metadata grid_container_3d = some (
    metadata engineering_drawings "Grid Container 3D"
      (some (text "Switchgear · transformer · PCS")))
artifact_metadata interface_plate = some (metadata engineering_drawings "Interface Plates" none)
artifact_metadata sld = some (
    metadata engineering_drawings "Single Line Diagram"
      (some (text "AC + DC distribution to module level")))
artifact_metadata sld_hmi_svg = none
artifact_metadata pid_cooling =
    some
      (metadata engineering_drawings "P&ID — Cooling" (some (text "Glycol loop · pumps · valves")))
artifact_metadata comms_diagram =
    some (
      metadata engineering_drawings "Comms Network"
        (some (text "Modbus · CAN · Ethernet topology")))
artifact_metadata cable_hose_schedule =
    some (metadata manifests_and_schedules "Cable & Hose Schedule" none)
artifact_metadata install_sequence = some (
    metadata engineering_drawings "Installation Sequence"
      (some (text "Install order · torque specs")))
artifact_metadata dtm = some (metadata manifests_and_schedules "Device Topology Manifest" none)

-- `MOCK_SYSTEM_IMAGE_TEMPLATES`, an entry a constant
abbrev pub ems_field_client : ArtifactMetadata
ems_field_client = metadata system_images "EMS Field Client" (some (text "Android 7.0+ · APK"))

abbrev pub appliance_iso : ArtifactMetadata
appliance_iso =
    metadata system_images "Appliance Installer"
      (some (text "Debian 13 USB installer · x86-64 · carries your site's devices"))

abbrev pub aws_deployment : ArtifactMetadata
aws_deployment =
    metadata system_images "CloudFormation Template"
      (some (text "Deploy in your AWS account · stands up the telemetry ingest stack"))

abbrev pub industrial_gateway : ArtifactMetadata
industrial_gateway =
    metadata system_images "Industrial Gateway"
      (some (text "OCI container · runs on your local network · forwards telemetry to the cloud"))

abbrev pub section_letter : ManifestSection → Text
section_letter system_images = text "A"
section_letter engineering_drawings = text "D"
section_letter manifests_and_schedules = text "M"
