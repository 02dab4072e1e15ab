-- ===== src/Wizard/Pages/DerControl.antt =====
-- src/wizard/der_control_service.py, der_control_ingress.py and box_address.py.
pub mod Identity
use platform_api.Prelude.{
  Bool, List, Option, Result, Text, Unicode, [], change, err, false, gets, has_infix, if◌then◌else◌,
  is_empty, keep, none, not, pure, some, strip, text, true, ℕ, ◌&&◌, ◌++◌, ◌==◌, ◌>>=◌, ◌>>◌, ◌∷◌,
}
use platform_api.Wizard.Steps.{Box, StepResult, VerifyCheck, is_done, mark_done, step_already_done}
use platform_api.Wizard.Inputs.{DerControlRequest}
use platform_api.Wizard.Machine.{Halt, Machine, Step, await, child_path, crashed, plain, refused}
use platform_api.Wizard.Waiting.{compose_command, wait_for_log}
use platform_api.Wizard.Pages.{docker_network, run_for, run_only, save_at}
use platform_api.Wizard.Pages.DerRows.{
  DerControlCfg, DerLibrary, der_control_service, der_finish, der_hint, health_check,
  identity_check, running_row, saved_row, skipped_der,
}

module _ {S : Type 0} (u : Unicode) (m : Machine S) (library : DerLibrary) (fuel : ℕ)
    (ems_dir : Text) where
  -- a value that may have raised on the way
  unfoldable pub given : {A : Type 0} → Result Halt A → Step S A
  given r s = (r, s)

  abbrev or_crash : {A : Type 0} → Text → Option A → Result Halt A
  or_crash reason none = err (crashed reason)
  or_crash reason (some a) = Result.ok a

  -- `box_address`
  pub box_address : Step S Text
  box_address = do
    out ←
        run_for u m
          (plain (text "ip" ∷ text "-4" ∷ text "route" ∷ text "get" ∷ text "1.1.1.1" ∷ []))
    given (or_crash (text "no source address") (library.source_address out.stdout))

  -- one of the files of `_write_utility_identity`
  pub place_file : Text × (Text × ℕ) → Step S (Unit {0})
  place_file (name, (content, mode)) =
      if is_empty content then change (m.unlink (child_path ems_dir name)) else (do
        change (m.touch (child_path ems_dir name) mode)
        change (m.chmod (child_path ems_dir name) mode)
        change (m.write_text (child_path ems_dir name) content))

  abbrev pub identity_files : DerControlRequest → List (Text × (Text × ℕ))
  identity_files request =
      (text "der-control-client.pem", (request.device_cert_pem, 420))
      ∷ (text "der-control-client-key.pem", (request.device_key_pem, 384))
      ∷ (text "der-control-utility-ca.pem", (request.utility_ca_pem, 420))
      ∷ []

  pub place_files : List (Text × (Text × ℕ)) → Step S (Unit {0})
  unfolding place_file
  place_files [] = pure tt
  place_files (file ∷ files) = place_file file >> place_files files

  -- `_write_utility_identity`
  unfoldable pub write_utility_identity : DerControlRequest → Step S (Unit {0})
  unfolding place_files
  write_utility_identity request = place_files (identity_files request)

  pub container_runs : Text → Step S Bool
  container_runs service = do
    out ← run_for u m (
        compose_command ems_dir
          (text "ps" ∷ text "-q" ∷ text "--status" ∷ text "running" ∷ service ∷ []))
    pure (not (is_empty (strip u.is_space out.stdout)))

  -- `compose up --force-recreate`, and the wait
  pub restart : Text → Text → Step S (Unit {0})
  restart service line = do
    run_only u m
        (compose_command ems_dir (text "up" ∷ text "-d" ∷ text "--force-recreate" ∷ service ∷ []))
    ready ← await (wait_for_log u m ems_dir service line fuel)
    pure tt

  abbrev ingress_tls : Text → Text
  ingress_tls name = child_path (child_path ems_dir (text "der-control-tls")) name

  abbrev is_there : Option Text → Bool
  is_there none = false
  is_there (some content) = true

  -- `start_der_ingress`
  pub start_der_ingress : Text → Text → Step S VerifyCheck
  start_der_ingress address utility_ca_pem = do
    change (m.mkdir (child_path ems_dir (text "der-control-tls")))
    certificate ← gets (m.read_text (ingress_tls (text "cert.pem")))
    if is_there certificate
        then pure tt
        else run_only u m (
            plain (
              text "openssl"
              ∷ text "req"
              ∷ text "-x509"
              ∷ text "-newkey"
              ∷ text "ec"
              ∷ text "-pkeyopt"
              ∷ text "ec_paramgen_curve:prime256v1"
              ∷ text "-nodes"
              ∷ text "-keyout"
              ∷ ingress_tls (text "key.pem")
              ∷ text "-out"
              ∷ ingress_tls (text "cert.pem")
              ∷ text "-days"
              ∷ text "3650"
              ∷ text "-subj"
              ∷ (text "/CN=" ++ address)
              ∷ text "-addext"
              ∷ (text "subjectAltName=IP:" ++ address)
              ∷ []))
    change (
        m.write_text (ingress_tls (text "truststore.pem"))
          (if is_empty utility_ca_pem then library.placeholder_truststore else utility_ca_pem))
    run_only u m (
        plain (
          text "curl"
          ∷ text "-fsSL"
          ∷ text "https://arcnode-public.s3.us-east-1.amazonaws.com/der-control-ingress/nginx.conf"
          ∷ text "-o"
          ∷ child_path ems_dir (text "der-control-ingress.conf")
          ∷ []))
    restart (text "der-control-ingress") (text "start worker processes")
    up ← container_runs (text "der-control-ingress")
    pure (
        running_row (text "DER ingress listening on 8443")
          (text "the utility posts DER events here")
          (text "sudo docker compose -f /opt/arcnode/docker-compose.yaml logs der-control-ingress")
          up)

  -- `_health_check`
  pub health : Step S VerifyCheck
  health = do
    out ← run_for u m (
        plain (
          text "docker"
          ∷ text "run"
          ∷ text "--rm"
          ∷ text "--network"
          ∷ docker_network
          ∷ text "curlimages/curl"
          ∷ text "-fsS"
          ∷ text "http://der-control-api:8080/actuator/health"
          ∷ []))
    pure (
        health_check out.returncode (
          out.returncode == 0
          && has_infix (keep (λ c. not (c == 32)) out.stdout) (text "\"status\":\"UP\"")))

  abbrev cfg_path : Text
  cfg_path = child_path ems_dir (text "der-control-cfg.customer.yml")

  -- `_saved_check`
  pub saved_cfg : DerControlCfg → Step S VerifyCheck
  saved_cfg expected = do
    file ← gets (m.read_text cfg_path)
    content ← given (or_crash (text "no such file") file)
    same_cfg ← given (library.reads_as content expected)
    pure (saved_row cfg_path same_cfg)

  -- `_identity_check`
  pub identity : Text → Step S VerifyCheck
  identity cert_pem = do
    lfdi ← given (library.lfdi_of cert_pem)
    out ← run_for u m (compose_command ems_dir (text "logs" ∷ der_control_service ∷ []))
    pure (
        identity_check lfdi (
          has_infix out.stdout
            (text "utility TLS identity loaded from /app/tls/utility: LFDI " ++ lfdi)))

  -- the checks of the page
  pub der_checks : Text → DerControlCfg → DerControlRequest → Step S (List VerifyCheck)
  der_checks address expected request = do
    up ← container_runs der_control_service
    healthy ← health
    kept ← saved_cfg expected
    ingress ← start_der_ingress address request.utility_ca_pem
    if is_empty request.device_cert_pem
        then pure (
            running_row (text "DER control API running") (text "running") der_hint up
            ∷ healthy
            ∷ kept
            ∷ ingress
            ∷ [])
        else (do
          known ← identity request.device_cert_pem
          pure (
              running_row (text "DER control API running") (text "running") der_hint up
              ∷ healthy
              ∷ kept
              ∷ ingress
              ∷ known
              ∷ []))

  abbrev pub overlay : Text → Text → Option Text → DerControlCfg
  overlay site address mirror = record {
    site_id = site;
    public_base_url = text "https://" ++ (address ++ text ":8443");
    utility_mirror_url = mirror;
  }

  -- `site` is the path of site.yml, and `secrets` that of the secrets file.
  pub der_work : Text → Text → Text → DerControlRequest → Step S (List VerifyCheck)
  der_work site secrets_dir secrets request = do
    file ← gets (m.read_text site)
    content ← given (or_crash (text "no such file") file)
    site_id ← given (library.site_id_of content)
    address ← box_address
    change (m.mkdir ems_dir)
    change
        (m.write_text cfg_path (library.dump (overlay site_id address request.utility_mirror_url)))
    save_at u m secrets_dir secrets
        ((text "DER_CONTROL_LFDI_ALLOWLIST", request.lfdi_allowlist) ∷ [])
    write_utility_identity request
    restart der_control_service (text "Started Application in")
    der_checks address (overlay site_id address request.utility_mirror_url) request

  -- `apply`
  unfoldable pub apply_der_control :
      Text → Text → Text → DerControlRequest → Box S → Result Halt StepResult × Box S
  unfolding der_work
  apply_der_control site secrets_dir secrets request box =
      if is_done (text "der_control_api") box.markers
      then (err (refused (step_already_done (text "the DER control API is already set up"))), box)
      else der_finish box.markers (der_work site secrets_dir secrets request box.system)

-- `DerControlService.skip`
unfoldable pub skip_der_control : {S : Type 0} → Box S → StepResult × Box S
unfolding mark_done
skip_der_control box = (
  record { verified = true; checks = skipped_der ∷ [] },
  record { markers = mark_done (text "der_control_api") box.markers; system = box.system },
)
