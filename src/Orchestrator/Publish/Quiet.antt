-- ===== src/Orchestrator/Publish/Quiet.antt =====
-- The portal pages of src/orchestrator/orchestrator_service.py keep to their services.
use platform_api.Prelude.{List, Option-cases, Result-cases, Text, inl, inr}
use platform_api.Manifest.Records.{DeploymentManifest, Sections}
use platform_api.Manifest.Build.{Archived}
use platform_api.Bundle.Files.{bundle_files_for}
use platform_api.Orders.Records.{ConfiguratorPayload, OrderEmsDelivery}
use platform_api.Orchestrator.Effects.Quiet.{
  IsQuiet, IsQuiet-bind, IsQuiet-done, IsQuiet-raise, IsQuiet-reading, IsQuiet-service,
}
use platform_api.Orchestrator.Services.{Services, Settings}
use platform_api.Orchestrator.Delivery.{truthy}
use platform_api.Orchestrator.Publish.{
  build_bundle, build_system_artifacts, cloud_images, order_manifest, publish_manifest,
  publish_portal,
}

module _ {S X : Type 0} (services : Services S X) (settings : Settings) where
  IsQuiet-cloud_images :
      (delivery : OrderEmsDelivery) → IsQuiet (cloud_images services settings delivery)
  unfolding cloud_images
  IsQuiet-cloud_images delivery = elim (Option-cases (truthy delivery.template_url)) [
    | inl e ↦ rw (e, cloud_images) (IsQuiet-done _ _)
    | inr (url, e) ↦
        rw (e, cloud_images)
          (IsQuiet-bind _ _ (IsQuiet-service _) λ cfn.
            IsQuiet-bind _ _ (IsQuiet-service _)
              λ gw. IsQuiet-bind _ _ (IsQuiet-service _) λ sha. IsQuiet-done _ _)
  ]

  IsQuiet-build_system_artifacts :
      (delivery : OrderEmsDelivery) → IsQuiet (build_system_artifacts services settings delivery)
  unfolding build_system_artifacts
  IsQuiet-build_system_artifacts delivery =
      IsQuiet-bind _ _ (IsQuiet-service _)
        λ size. IsQuiet-bind _ _ (IsQuiet-cloud_images delivery) λ cloud. IsQuiet-done _ _

  IsQuiet-build_bundle :
      (order_id : Text) (sections : Sections)
      → IsQuiet (build_bundle services settings order_id sections)
  unfolding build_bundle
  IsQuiet-build_bundle order_id sections =
      elim (Result-cases (bundle_files_for services.url_path sections)) [
        | inl (files, e) ↦
            rw (e, build_bundle) (IsQuiet-service (services.build_bundle order_id files))
        | inr (x, e) ↦ rw (e, build_bundle) (IsQuiet-raise _ _)
      ]

  IsQuiet-publish_manifest :
      (order_id : Text) (manifest : DeploymentManifest)
      → IsQuiet (publish_manifest services settings order_id manifest)
  unfolding publish_manifest
  IsQuiet-publish_manifest order_id manifest = IsQuiet-bind _ _ (IsQuiet-service _) λ html.
      IsQuiet-bind _ _ (IsQuiet-service _) λ json.
        IsQuiet-bind _ _ (IsQuiet-build_bundle order_id manifest.sections) λ _.
          IsQuiet-bind _ _ (IsQuiet-service _)
            λ _. IsQuiet-bind _ _ (IsQuiet-service _) λ _. IsQuiet-service _

  pub IsQuiet-publish_portal :
      (order_id : Text) (payload : ConfiguratorPayload) (archived : List Archived)
      (delivery : OrderEmsDelivery)
      → IsQuiet (publish_portal services settings order_id payload archived delivery)
  unfolding publish_portal
  IsQuiet-publish_portal order_id payload archived delivery =
      IsQuiet-bind _ _ (IsQuiet-build_system_artifacts delivery) λ system.
        IsQuiet-bind _ _ (IsQuiet-reading _ _) λ when.
          IsQuiet-publish_manifest order_id
            (order_manifest services settings order_id payload archived delivery system when)
