-- ===== src/Orchestrator/Delivery.antt =====
-- src/orchestrator/orchestrator_service.py: the archive and the delivery (`_archive`,
-- `_build_delivery` and their helpers).
pub mod Quiet
pub mod Path
use platform_api.Prelude.{
  Bool, List, Option, Text, [], err, if◌then◌else◌, is_empty, map, none, ok, rstrip, some,
  starts_with, text, ◌++◌, ◌==◌, ◌||◌, ◌∷◌,
}
use platform_api.Edp.Artifacts.{ArtifactRef, JobResult, content_type_for, dtm, same_kind}
use platform_api.Bundle.Names.{archive_keys, order_key}
use platform_api.Manifest.Build.{Archived}
use platform_api.Sites.Slug.{slugify_site_id}
use platform_api.Sites.Identity.{site_hostname, site_token}
use platform_api.Orders.Records.{
  ConfiguratorPayload, DeliveryPath, OrderEmsDelivery, OrderSite, cfn_govcloud, cfn_standard,
  derive_delivery_path, iso,
}
use platform_api.Orchestrator.Effects.{
  Action, bind, done, dtm_missing, lengths_differ, path_failed, raise, service, slug_empty,
  unknown_format,
}
use platform_api.Orchestrator.Services.{Services, Settings, SiteCallback, TemplateInputs}

-- `_find_dtm_url`; `none` is the ValueError.
unfoldable pub find_dtm_url : List Archived → Option Text
unfolding same_kind
find_dtm_url [] = none
find_dtm_url ((ref, size) ∷ archived) =
    let rest = find_dtm_url archived in if same_kind ref.kind dtm then some ref.url else rest

abbrev pub is_absolute : Text → Bool
is_absolute url =
    starts_with url (text "http://")
    || starts_with url (text "https://")
    || starts_with url (text "s3://")

unfoldable pub to_absolute_url : Settings → Text → Text
to_absolute_url settings url =
    if is_absolute url then url else rstrip (λ c. c == b'/') settings.edp_base_url ++ url

-- a text that Python's truth test accepts
abbrev pub truthy : Option Text → Option Text
truthy none = none
truthy (some s) = if is_empty s then none else some s

module _ {S X : Type 0} (services : Services S X) (settings : Settings) where
  -- a service's own text and the archived copy's URL
  pub archive_ref : Text → ArtifactRef → Action S X Archived
  unfolding to_absolute_url content_type_for
  archive_ref key ref = elim (content_type_for ref.format) [
    | none ↦ raise unknown_format
    | some content_type ↦
        bind
          (service (services.archive_from_url (to_absolute_url settings ref.url) key content_type))
          λ copy. done (
            record {
              kind = ref.kind;
              format = ref.format;
              url = copy.0;
              plate_id = ref.plate_id;
              summary = ref.summary;
            },
            copy.1,
          )
  ]

  pub archive_refs : List Text → List ArtifactRef → Action S X (List Archived)
  unfolding archive_ref
  archive_refs [] [] = done []
  archive_refs [] (r ∷ refs) = raise lengths_differ
  archive_refs (k ∷ keys) [] = raise lengths_differ
  archive_refs (k ∷ keys) (r ∷ refs) =
      bind (archive_ref k r) λ copy. bind (archive_refs keys refs) λ copies. done (copy ∷ copies)

  unfoldable pub archive : Text → JobResult → Action S X (List Archived)
  unfolding archive_keys archive_refs
  archive order_id edp =
      elim (archive_keys order_id (map (λ (r : ArtifactRef). r.url) edp.edp_artifact_urls)) [
        | err e ↦ raise (path_failed e)
        | ok keys ↦ archive_refs keys edp.edp_artifact_urls
      ]

  unfoldable pub order_site : ConfiguratorPayload → Text → Option OrderSite
  unfolding slugify_site_id
  order_site payload order_id =
      elim (slugify_site_id services.unicode payload.deployment_site_name) [
        | err e ↦ none
        | ok slug ↦ some (record {
          site_id = slug;
          market_region = payload.grid.market_region;
          settlement_point = payload.grid.settlement_point;
          customer = some payload.operator_org;
          site_name = some payload.deployment_site_name;
          order_id = some order_id;
        })
      ]

  pub site_callback : Text → Text → Text → SiteCallback
  unfolding site_token site_hostname
  site_callback secret order_id site_id = record {
    url =
        settings.platform_public_url
        ++ (text "/platform-api/sites/" ++ (order_id ++ text "/address"));
    token = site_token services.hmac_hex secret order_id;
    hostname = site_hostname site_id order_id;
  }

  pub template_inputs : Text → ConfiguratorPayload → OrderSite → TemplateInputs
  unfolding site_callback
  template_inputs order_id payload site = record {
    deployment_uuid = order_id;
    dtm_url = services.public_url (order_key order_id (text "dtm.json"));
    site_id = site.site_id;
    market_region = site.market_region;
    settlement_point = site.settlement_point;
    deployment_context = payload.deployment_context;
    site_callback = elim (truthy settings.site_token_secret) [
      | none ↦ none
      | some secret ↦ some (site_callback secret order_id site.site_id)
    ];
  }

  pub deliver_iso : Text → DeliveryPath → OrderSite → Action S X OrderEmsDelivery
  deliver_iso order_id path site = bind (service (services.bake order_id site)) λ baked.
      done (record {
        path = path;
        template_url = none;
        iso_url = some baked.0;
        iso_size_bytes = some baked.1;
      })

  unfoldable pub deliver_template :
      Text → DeliveryPath → ConfiguratorPayload → OrderSite → Action S X OrderEmsDelivery
  unfolding template_inputs
  deliver_template order_id path payload site =
      bind (service (services.render_template (template_inputs order_id payload site))) λ template.
        bind (service (services.upload_yaml (order_key order_id (text "ems-stack.yaml")) template))
          λ url.
            done (record {
              path = path;
              template_url = some url;
              iso_url = none;
              iso_size_bytes = none;
            })

  unfoldable pub deliver :
      Text → DeliveryPath → ConfiguratorPayload → OrderSite → Action S X OrderEmsDelivery
  unfolding deliver_iso deliver_template
  deliver order_id iso payload site = deliver_iso order_id iso site
  deliver order_id cfn_standard payload site = deliver_template order_id cfn_standard payload site
  deliver order_id cfn_govcloud payload site = deliver_template order_id cfn_govcloud payload site

  -- the rest of `_build_delivery`, for the site and the DTM's URL where they are found
  unfoldable pub deliver_found :
      Text → ConfiguratorPayload → Option OrderSite → Option Text → Action S X OrderEmsDelivery
  deliver_found order_id payload none link = raise slug_empty
  deliver_found order_id payload (some site) none = raise dtm_missing
  deliver_found order_id payload (some site) (some url) =
      deliver order_id (derive_delivery_path payload.aws_partition) payload site

  unfoldable pub build_delivery :
      Text → ConfiguratorPayload → List Archived → Action S X OrderEmsDelivery
  build_delivery order_id payload archived =
      deliver_found order_id payload (order_site payload order_id) (find_dtm_url archived)
