-- ===== src/Orchestrator/Services.antt =====
-- The services that the orchestrator is given: each method passes the services' state along and may
-- raise. Their own code is src/aws, src/cfn, src/iso, src/portal, src/bundle and src/edp_client.
use platform_api.Prelude.{List, Option, Result, Text, Unicode, ℕ}
use platform_api.Edp.Artifacts.{JobResult}
use platform_api.Manifest.Records.{DeploymentManifest}
use platform_api.Bundle.Files.{BundleFile}
use platform_api.Orders.Records.{ConfiguratorPayload, DeploymentContext, Order, OrderSite}
use platform_api.Orchestrator.Effects.{Mail}

pub record SiteCallback : Type 0 where
  pub url : Text
  pub token : Text
  pub hostname : Text

pub record TemplateInputs : Type 0 where
  pub deployment_uuid : Text
  pub dtm_url : Text
  pub site_id : Text
  pub market_region : Option Text
  pub settlement_point : Option Text
  pub deployment_context : DeploymentContext
  pub site_callback : Option SiteCallback

pub record Services (S X : Type 0) : Type 0 where
  pub ensure_bucket : S → Result X (Unit {0}) × S
  pub verify_sender : S → Result X (Unit {0}) × S
  pub submit_and_wait : ConfiguratorPayload → Text → S → Result X JobResult × S
  -- from a source, to a key, with a content type: the new URL and the size
  pub archive_from_url : Text → Text → Text → S → Result X (Text × ℕ) × S
  -- the URL and the size of the baked image
  pub bake : Text → OrderSite → S → Result X (Text × ℕ) × S
  pub render_template : TemplateInputs → S → Result X Text × S
  pub upload_yaml : Text → Text → S → Result X Text × S
  pub upload_json : Text → Text → S → Result X Text × S
  pub upload_html : Text → Text → S → Result X Text × S
  pub head_size : Text → S → Result X ℕ × S
  pub generate_presigned_url : Text → ℕ → S → Result X Text × S
  pub render : DeploymentManifest → S → Result X Text × S
  pub render_manifest_json : DeploymentManifest → S → Result X Text × S
  pub build_bundle : Text → List BundleFile → S → Result X (Unit {0}) × S
  pub send_delivery_email : Mail → S → Result X (Unit {0}) × S
  pub write_row : Order → S → Result X (Unit {0}) × S
  pub validate_payload : Text → Result X ConfiguratorPayload
  pub public_url : Text → Text
  pub now : S → Text × S
  -- `urlparse(url).path`
  pub url_path : Text → Text
  pub hmac_hex : Text → Text → Text
  pub unicode : Unicode

-- The constructor's settings; an absent secret is a deployment without DNS callbacks.
pub record Settings : Type 0 where
  pub edp_base_url : Text
  pub ems_hmi_apk_url : Text
  pub ems_industrial_gateway_tarball_url : Text
  pub site_token_secret : Option Text
  pub platform_public_url : Text
