-- ===== src/Orchestrator/Delivery/Quiet.antt =====
-- The archive and the delivery of src/orchestrator/orchestrator_service.py keep to their services.
use platform_api.Prelude.{
  List, Option, Option-cases, Result-cases, Text, [], inl, inr, map, none, some, ◌∷◌,
}
use platform_api.Edp.Artifacts.{ArtifactRef, JobResult, content_type_for}
use platform_api.Bundle.Names.{archive_keys}
use platform_api.Manifest.Build.{Archived}
use platform_api.Orders.Records.{
  ConfiguratorPayload, DeliveryPath, OrderSite, cfn_govcloud, cfn_standard, derive_delivery_path,
  iso,
}
use platform_api.Orchestrator.Effects.{unknown_format}
use platform_api.Orchestrator.Effects.Quiet.{
  IsQuiet, IsQuiet-bind, IsQuiet-done, IsQuiet-raise, IsQuiet-service,
}
use platform_api.Orchestrator.Services.{Services, Settings}
use platform_api.Orchestrator.Delivery.{
  archive, archive_ref, archive_refs, build_delivery, deliver, deliver_found, deliver_iso,
  deliver_template, find_dtm_url, order_site,
}

module _ {S X : Type 0} (services : Services S X) (settings : Settings) where
  IsQuiet-archive_ref :
      (key : Text) (ref : ArtifactRef) → IsQuiet (archive_ref services settings key ref)
  unfolding archive_ref
  IsQuiet-archive_ref key ref = elim (Option-cases (content_type_for ref.format)) [
    | inl e ↦ rw e (IsQuiet-raise _ unknown_format)
    | inr (t, e) ↦ rw e (IsQuiet-bind _ _ (IsQuiet-service _) λ copy. IsQuiet-done _ _)
  ]

  IsQuiet-archive_refs :
      (keys : List Text) (refs : List ArtifactRef)
      → IsQuiet (archive_refs services settings keys refs)
  unfolding archive_refs
  IsQuiet-archive_refs [] [] = IsQuiet-done _ _
  IsQuiet-archive_refs [] (r ∷ refs) = IsQuiet-raise _ _
  IsQuiet-archive_refs (k ∷ keys) [] = IsQuiet-raise _ _
  IsQuiet-archive_refs (k ∷ keys) (r ∷ refs) =
      IsQuiet-bind _ _ (IsQuiet-archive_ref k r)
        λ copy. IsQuiet-bind _ _ (IsQuiet-archive_refs keys refs) λ copies. IsQuiet-done _ _

  pub IsQuiet-archive :
      (order_id : Text) (edp : JobResult) → IsQuiet (archive services settings order_id edp)
  unfolding archive
  IsQuiet-archive order_id edp =
      elim (Result-cases
        (archive_keys order_id (map (λ (r : ArtifactRef). r.url) edp.edp_artifact_urls))) [
          | inl (keys, e) ↦ rw (e, archive) (IsQuiet-archive_refs keys edp.edp_artifact_urls)
          | inr (x, e) ↦ rw (e, archive) (IsQuiet-raise _ _)
        ]

  IsQuiet-deliver :
      (order_id : Text) (path : DeliveryPath) (payload : ConfiguratorPayload) (site : OrderSite)
      → IsQuiet (deliver services settings order_id path payload site)
  unfolding deliver deliver_iso deliver_template
  IsQuiet-deliver order_id iso payload site =
      IsQuiet-bind _ _ (IsQuiet-service _) λ baked. IsQuiet-done _ _
  IsQuiet-deliver order_id cfn_standard payload site =
      IsQuiet-bind _ _ (IsQuiet-service _)
        λ template. IsQuiet-bind _ _ (IsQuiet-service _) λ url. IsQuiet-done _ _
  IsQuiet-deliver order_id cfn_govcloud payload site =
      IsQuiet-bind _ _ (IsQuiet-service _)
        λ template. IsQuiet-bind _ _ (IsQuiet-service _) λ url. IsQuiet-done _ _

  IsQuiet-deliver_found :
      (order_id : Text) (payload : ConfiguratorPayload) (found : Option OrderSite)
      (link : Option Text)
      → IsQuiet (deliver_found services settings order_id payload found link)
  unfolding deliver_found
  IsQuiet-deliver_found order_id payload none link = IsQuiet-raise _ _
  IsQuiet-deliver_found order_id payload (some site) none = IsQuiet-raise _ _
  IsQuiet-deliver_found order_id payload (some site) (some url) =
      IsQuiet-deliver order_id (derive_delivery_path payload.aws_partition) payload site

  pub IsQuiet-build_delivery :
      (order_id : Text) (payload : ConfiguratorPayload) (archived : List Archived)
      → IsQuiet (build_delivery services settings order_id payload archived)
  unfolding build_delivery
  IsQuiet-build_delivery order_id payload archived =
      IsQuiet-deliver_found order_id payload (order_site services settings payload order_id)
        (find_dtm_url archived)
