-- ===== src/Orchestrator/Examples.antt =====
-- Runs of src/orchestrator/orchestrator_service.py over services in small: the state counts the calls.
use platform_api.Prelude.{
  List, Result, Text, [], ascii, none, ok, refl, some, text, ℕ, ◌++◌, ◌+◌, ◌∷◌, ◌≡◌, ◌⊎◌,
}
use platform_api.Edp.Artifacts.{ArtifactRef, JobResult, JobStatus, dtm}
use platform_api.Manifest.Build.{Archived}
use platform_api.Orders.Records.{
  AwsPartition, ConfiguratorPayload, Order, OrderEmsDelivery, OrderStatus, cfn_standard, commercial,
  derive_delivery_path, standard,
}
use platform_api.Orchestrator.Effects.{World, bind, done, service}
use platform_api.Orchestrator.Services.{Services, Settings}
use platform_api.Orchestrator.Delivery.{
  build_delivery, deliver, deliver_found, deliver_template, find_dtm_url, order_site,
}
use platform_api.Orchestrator.Delivery.Path.{Carries, build_delivery-Carries}
use platform_api.Orchestrator.Run.{execute}
use platform_api.Orchestrator.Run.Outcome.{Completed, Failed}
use platform_api.Orchestrator.Run.Settled.{begun, execute-settles, started}

abbrev works : {A : Type 0} → A → ℕ → Result (Unit {0}) A × ℕ
works x n = (ok x, n + 1)

abbrev dtm_file : ArtifactRef
dtm_file = record {
  kind = dtm;
  format = text "json";
  url = text "s3://edp/dtm.json";
  plate_id = none;
  summary = none;
}

abbrev job : JobResult
job = record { status = JobStatus.complete; edp_artifact_urls = dtm_file ∷ []; error = none }

abbrev site_payload : AwsPartition → ConfiguratorPayload
site_payload partition = record {
  json = text "{}";
  operator_org = text "Org";
  deployment_site_name = text "Nevada 2";
  contact_email = text "o@x.io";
  deployment_context = commercial;
  aws_partition = partition;
  grid = record { market_region = none; settlement_point = none };
}

abbrev small : Services ℕ (Unit {0})
small = record {
  ensure_bucket = works tt;
  verify_sender = works tt;
  submit_and_wait = λ payload id. works job;
  archive_from_url = λ source key type. works (key, 7);
  bake = λ id site. works (text "iso", 9);
  render_template = λ inputs. works (text "yaml");
  upload_yaml = λ key body. works key;
  upload_json = λ key body. works key;
  upload_html = λ key body. works key;
  head_size = λ url. works 3;
  generate_presigned_url = λ key n. works key;
  render = λ manifest. works (text "html");
  render_manifest_json = λ manifest. works (text "json");
  build_bundle = λ id files. works tt;
  send_delivery_email = λ mail. works tt;
  write_row = λ row. works tt;
  validate_payload = λ json. ok (site_payload standard);
  public_url = λ key. key;
  now = λ n. (text "now", n);
  url_path = λ url. url;
  hmac_hex = λ secret id. secret ++ id;
  unicode = ascii;
}

abbrev plain_settings : Settings
plain_settings = record {
  edp_base_url = text "http://edp";
  ems_hmi_apk_url = text "https://apk";
  ems_industrial_gateway_tarball_url = text "https://gw.tgz";
  site_token_secret = some (text "s");
  platform_public_url = text "https://p";
}

abbrev fresh_order : Order
fresh_order = record {
  id = text "42abcdef";
  status = OrderStatus.pending;
  submitted_at = text "then";
  completed_at = none;
  payload = text "{}";
  deployment_uuid = none;
  edp_artifacts = [];
  ems_delivery = none;
}

abbrev still : World ℕ
still = record { services = 0; saves = []; mails = [] }

execute-settles_example :
    Completed small plain_settings
      (started fresh_order)
      (begun small fresh_order still)
      (execute small plain_settings fresh_order still).1
    ⊎ Failed small plain_settings
        (started fresh_order)
        (begun small fresh_order still)
        (execute small plain_settings fresh_order still).1
execute-settles_example = execute-settles small plain_settings (λ row s. refl) fresh_order still

abbrev archived_dtm : List Archived
archived_dtm = (dtm_file, 7) ∷ []

abbrev template_delivery : OrderEmsDelivery
template_delivery = record {
  path = cfn_standard;
  template_url = some (text "orders/42abcdef/ems-stack.yaml");
  iso_url = none;
  iso_size_bytes = none;
}

delivered :
    build_delivery small plain_settings (text "42abcdef") (site_payload standard) archived_dtm still
    ≡ (ok template_delivery, record { services = 2; saves = []; mails = [] })
unfolding build_delivery deliver_found order_site find_dtm_url deliver deliver_template bind service
    done derive_delivery_path
delivered = refl

build_delivery-Carries_example :
    ((dtm_url : Text) × (find_dtm_url archived_dtm ≡ some dtm_url))
    × (template_delivery.path ≡ derive_delivery_path standard)
    × Carries (derive_delivery_path standard) template_delivery
build_delivery-Carries_example =
    build_delivery-Carries small plain_settings (text "42abcdef") (site_payload standard)
      archived_dtm still (record { services = 2; saves = []; mails = [] }) template_delivery
      delivered
