-- ===== src/Orchestrator/Publish.antt =====
-- src/orchestrator/orchestrator_service.py: the portal page and the zip (`_publish_portal`,
-- `_build_bundle`, `_build_system_artifacts`).
pub mod Quiet
use platform_api.Prelude.{
  List, Text, [], err, false, if◌then◌else◌, ltb, none, ok, some, text, true, ℕ, ◌++◌, ◌∷◌,
}
use platform_api.Manifest.Records.{
  ArtifactMetadata, DeploymentManifest, ManifestArtifact, ManifestFile, Sections, appliance_iso,
  aws_deployment, ems_field_client, industrial_gateway,
}
use platform_api.Manifest.Build.{Archived, build}
use platform_api.Bundle.Names.{order_key}
use platform_api.Bundle.Files.{bundle_files_for}
use platform_api.Orders.Records.{ConfiguratorPayload, OrderEmsDelivery}
use platform_api.Orchestrator.Effects.{Action, bind, done, path_failed, raise, reading, service}
use platform_api.Orchestrator.Services.{Services, Settings}
use platform_api.Orchestrator.Delivery.{truthy}

abbrev pub delivery_link_expiry_s : ℕ
delivery_link_expiry_s = 604800

abbrev pub image : ArtifactMetadata → List ManifestFile → ManifestArtifact
image meta files = record { code = []; name = meta.name; subtitle = meta.subtitle; files = files }

abbrev pub one_file : Text → ℕ → Text → ManifestFile
one_file format size url = record { format = format; size_bytes = size; url = url }

pub iso_images : OrderEmsDelivery → List ManifestArtifact
iso_images delivery = elim (truthy delivery.iso_url) [
  | none ↦ []
  | some url ↦
      image appliance_iso
        (one_file (text "ISO") (elim delivery.iso_size_bytes [ none ↦ 0 | some n ↦ n ]) url ∷ [])
      ∷ []
]

-- the gateway's files: its checksum is listed where there is one
pub gateway_files : Text → ℕ → ℕ → List ManifestFile
gateway_files url size sha_size =
    one_file (text "TGZ") size url
    ∷ (if ltb 0 sha_size
        then one_file (text "SHA256") sha_size (url ++ text ".sha256") ∷ []
        else [])

module _ {S X : Type 0} (services : Services S X) (settings : Settings) where
  pub cloud_images : OrderEmsDelivery → Action S X (List ManifestArtifact)
  unfolding gateway_files
  cloud_images delivery = elim (truthy delivery.template_url) [
    | none ↦ done []
    | some url ↦ bind (service (services.head_size url)) λ cfn_size.
        bind (service (services.head_size settings.ems_industrial_gateway_tarball_url)) λ gw_size.
          bind
            (service
              (services.head_size (settings.ems_industrial_gateway_tarball_url ++ text ".sha256")))
            λ sha_size. done (
              image aws_deployment (one_file (text "YAML") cfn_size url ∷ [])
              ∷ image industrial_gateway
                  (gateway_files settings.ems_industrial_gateway_tarball_url gw_size sha_size)
              ∷ [])
  ]

  unfoldable pub build_system_artifacts : OrderEmsDelivery → Action S X (List ManifestArtifact)
  unfolding iso_images cloud_images
  build_system_artifacts delivery =
      bind (service (services.head_size settings.ems_hmi_apk_url)) λ apk_size.
        bind (cloud_images delivery) λ cloud. done (
          iso_images delivery
          ++ image ems_field_client (one_file (text "APK") apk_size settings.ems_hmi_apk_url ∷ [])
            ∷ cloud)

  pub build_bundle : Text → Sections → Action S X (Unit {0})
  unfolding bundle_files_for
  build_bundle order_id sections = elim (bundle_files_for services.url_path sections) [
    | err e ↦ raise (path_failed e)
    | ok files ↦ service (services.build_bundle order_id files)
  ]

  pub order_manifest :
      Text
      → ConfiguratorPayload
      → List Archived
      → OrderEmsDelivery
      → List ManifestArtifact
      → Text
      → DeploymentManifest
  unfolding build
  order_manifest order_id payload archived delivery system when =
      build services.unicode (services.public_url (order_key order_id (text "arcnode.zip")))
        payload.deployment_site_name archived system when
        (elim delivery.template_url [ none ↦ false | some url ↦ true ])

  -- the pages of a manifest, the zip among them; the answer is the portal's signed link
  pub publish_manifest : Text → DeploymentManifest → Action S X Text
  unfolding build_bundle
  publish_manifest order_id manifest = bind (service (services.render manifest)) λ html.
      bind (service (services.render_manifest_json manifest)) λ json.
        bind (build_bundle order_id manifest.sections) λ _.
          bind (service (services.upload_json (order_key order_id (text "manifest.json")) json))
            λ _.
              bind (service (services.upload_html (order_key order_id (text "index.html")) html))
                λ _. service (
                  services.generate_presigned_url (order_key order_id (text "index.html"))
                    delivery_link_expiry_s)

  unfoldable pub publish_portal :
      Text → ConfiguratorPayload → List Archived → OrderEmsDelivery → Action S X Text
  unfolding build_system_artifacts order_manifest publish_manifest
  publish_portal order_id payload archived delivery =
      bind (build_system_artifacts delivery) λ system. bind (reading services.now) λ when.
        publish_manifest order_id (order_manifest order_id payload archived delivery system when)
