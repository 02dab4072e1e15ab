-- ===== src/Wizard/Pages/Containers.antt =====
-- src/wizard/: device_api_service.py, hmi_service.py, telemetry_writer_service.py,
-- industrial_gateway_service.py, mlflow_service.py and prometheus_service.py.
pub mod Ends
use platform_api.Prelude.{
  Bool, List, Result, Text, Unicode, [], answer, change, if◌then◌else◌, is_empty, not, pure, strip,
  text, text_eq, ℕ, ◌&&◌, ◌++◌, ◌==◌, ◌>>=◌, ◌>>◌, ◌∷◌,
}
use platform_api.Wizard.Steps.{Box, CommandOutput, StepResult, VerifyCheck}
use platform_api.Wizard.Machine.{Halt, Machine, Step, await, child_path, plain}
use platform_api.Wizard.Waiting.{compose_command, wait_for_log}
use platform_api.Wizard.Pages.{docker_network, has_line, page, run_for, run_only, save_at, shown}

abbrev pub gateway_service : Text
gateway_service = text "industrial-gateway"

abbrev pub subscribed_line : Text
subscribed_line = text "MQTT subscriptions established"

abbrev spec_line : Text
spec_line = text "initial spec fetched"

abbrev gateway_hint : Text
gateway_hint =
    text "sudo docker compose -f /opt/arcnode/docker-compose.yaml logs industrial-gateway"

abbrev hmi_hint : Text
hmi_hint = text "sudo docker compose -f /opt/arcnode/docker-compose.yaml logs hmi"

abbrev running_check : Bool → VerifyCheck
running_check running = record {
  name = text "Industrial gateway running";
  ok = running;
  detail = if running then text "running" else text "not running";
  hint = gateway_hint;
}

abbrev serves_check : Text → Text → Bool → Text → VerifyCheck
serves_check name detail answered seen = record {
  name = name;
  ok = answered;
  detail = if answered then detail else text "got " ++ seen;
  hint = hmi_hint;
}

-- `fuel` is that of the waits, `ems_dir` the directory of the compose files.
module _ {S : Type 0} (u : Unicode) (m : Machine S) (fuel : ℕ) (ems_dir : Text) where
  -- `docker compose up` with its options, and the wait for the line that says the container is ready
  pub start : List Text → Text → Text → Step S (Unit {0})
  start options service line = do
    run_only u m (compose_command ems_dir (text "up" ∷ text "-d" ∷ options ++ service ∷ []))
    ready ← await (wait_for_log u m ems_dir service line fuel)
    pure tt

  pub logs_of : Text → Step S CommandOutput
  logs_of service = run_for u m (compose_command ems_dir (text "logs" ∷ service ∷ []))

  -- `secrets_dir` is the directory of the secrets file at `secrets`; `verify` is verify_device_api.
  pub device_api_work : Text → Text → Text → (S → List VerifyCheck × S) → Step S (List VerifyCheck)
  unfolding start
  device_api_work secrets_dir secrets jwt_secret verify = do
    save_at u m secrets_dir secrets ((text "AUTH_JWT_SECRET", jwt_secret) ∷ [])
    start [] (text "device-api") (text "mqtt connected")
    answer verify

  unfoldable pub apply_device_api :
      Text → Text → Text → (S → List VerifyCheck × S) → Box S → Result Halt StepResult × Box S
  unfolding page
  apply_device_api secrets_dir secrets jwt_secret verify =
      page (text "device_api") (text "Device API is already set up")
        (device_api_work secrets_dir secrets jwt_secret verify)

  -- `dumped` is the YAML of the retention window; `verify` is verify_telemetry.
  pub telemetry_work : Text → (S → List VerifyCheck × S) → Step S (List VerifyCheck)
  unfolding start
  telemetry_work dumped verify = do
    change (m.mkdir ems_dir)
    change (m.write_text (child_path ems_dir (text "telemetry-writer-cfg.customer.yml")) dumped)
    start (text "--force-recreate" ∷ []) (text "telemetry-writer") (text "reason_code=Success")
    answer verify

  unfoldable pub apply_telemetry :
      Text → (S → List VerifyCheck × S) → Box S → Result Halt StepResult × Box S
  unfolding page
  apply_telemetry dumped verify =
      page (text "telemetry") (text "Telemetry writer is already set up")
        (telemetry_work dumped verify)

  -- `IndustrialGatewayService._checks`
  pub gateway_checks : Step S (List VerifyCheck)
  unfolding logs_of
  gateway_checks = do
    running ← run_for u m (
        compose_command ems_dir
          (text "ps" ∷ text "-q" ∷ text "--status" ∷ text "running" ∷ gateway_service ∷ []))
    logs ← logs_of gateway_service
    pure (
        running_check (not (is_empty (strip u.is_space running.stdout)))
        ∷ has_line u m logs spec_line (text "Loaded the device spec")
            (text "spec fetched from the Device API") (text "no spec in the log") gateway_hint
        ∷ has_line u m logs subscribed_line (text "Subscribed to the broker")
            (text "subscriptions established") (text "no subscriptions in the log") gateway_hint
        ∷ [])

  pub gateway_work : Step S (List VerifyCheck)
  unfolding start gateway_checks
  gateway_work = do start [] gateway_service subscribed_line; gateway_checks

  unfoldable pub apply_gateway : Box S → Result Halt StepResult × Box S
  unfolding page
  apply_gateway =
      page (text "industrial_gateway") (text "Industrial gateway is already set up") gateway_work

  -- one of the two requests of the HMI page
  pub serves : List Text → Text → Text → Step S VerifyCheck
  serves args name detail = do
    out ← run_for u m (plain args)
    pure (
        serves_check name detail
          ((out.returncode == 0) && text_eq (strip u.is_space out.stdout) (text "200"))
          (shown u out))

  abbrev serves_app : Step S VerifyCheck
  serves_app =
      serves
        (text "docker"
          ∷ text "run"
          ∷ text "--rm"
          ∷ text "--network"
          ∷ docker_network
          ∷ text "curlimages/curl"
          ∷ text "-fsS"
          ∷ text "-o"
          ∷ text "/dev/null"
          ∷ text "-w"
          ∷ text "%{http_code}"
          ∷ text "http://hmi/"
          ∷ [])
        (text "Serves the operator screen") (text "HTTP 200 in the arcnode network")

  abbrev serves_http : Step S VerifyCheck
  serves_http =
      serves
        (text "curl"
          ∷ text "-fsS"
          ∷ text "-o"
          ∷ text "/dev/null"
          ∷ text "-w"
          ∷ text "%{http_code}"
          ∷ text "http://127.0.0.1/"
          ∷ [])
        (text "Serves HTTP on port 80") (text "HTTP 200 on port 80")

  pub hmi_work : Step S (List VerifyCheck)
  unfolding start serves
  hmi_work = do
    start [] (text "hmi") (text "start worker processes")
    app ← serves_app
    http ← serves_http
    pure (app ∷ http ∷ [])

  unfoldable pub apply_hmi : Box S → Result Halt StepResult × Box S
  unfolding page
  apply_hmi = page (text "hmi") (text "HMI is already set up") hmi_work

  pub mlflow_work : Step S (List VerifyCheck)
  unfolding start logs_of
  mlflow_work = do
    change (m.mkdir (child_path ems_dir (text "mlflow/mlflow-data")))
    change (m.mkdir (child_path ems_dir (text "mlflow/mlflow-artifacts")))
    start [] (text "mlflow") (text "Uvicorn running on http://0.0.0.0:5000")
    logs ← logs_of (text "mlflow")
    pure (
        has_line u m logs (text "Uvicorn running on http://0.0.0.0:5000")
          (text "MLflow tracking server listening") (text "listening on port 5000")
          (text "not listening yet")
          (text "sudo docker compose -f /opt/arcnode/docker-compose.yaml logs mlflow")
        ∷ [])

  unfoldable pub apply_mlflow : Box S → Result Halt StepResult × Box S
  unfolding page
  apply_mlflow = page (text "mlflow") (text "MLflow is already set up") mlflow_work

  pub prometheus_work : Step S (List VerifyCheck)
  unfolding start logs_of
  prometheus_work = do
    change (m.mkdir (child_path ems_dir (text "observability/prometheus-data")))
    run_only u m (
        plain (
          text "chown"
          ∷ text "-R"
          ∷ text "65534:65534"
          ∷ child_path ems_dir (text "observability/prometheus-data")
          ∷ []))
    change (m.mkdir (child_path ems_dir (text "observability")))
    run_only u m (
        plain (
          text "curl"
          ∷ text "-fsSL"
          ∷ text "https://arcnode-public.s3.us-east-1.amazonaws.com/observability/prometheus.yml"
          ∷ text "-o"
          ∷ child_path ems_dir (text "observability/prometheus.yml")
          ∷ []))
    start [] (text "prometheus") (text "Server is ready to receive web requests.")
    logs ← logs_of (text "prometheus")
    pure (
        has_line u m logs (text "Server is ready to receive web requests.")
          (text "Prometheus ready") (text "ready to receive web requests") (text "not ready yet")
          (text "sudo docker compose -f /opt/arcnode/docker-compose.yaml logs prometheus")
        ∷ [])

  unfoldable pub apply_prometheus : Box S → Result Halt StepResult × Box S
  unfolding page
  apply_prometheus = page (text "prometheus") (text "Prometheus is already set up") prometheus_work
