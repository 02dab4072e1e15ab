-- ===== src/Wizard/Pages/Https.antt =====
-- src/wizard/https_service.py: the certificate page.
pub mod Install
pub mod Guard
pub mod Spent
pub mod Retry
mod Examples
use platform_api.Prelude.{
  Bool, List, Option, Result, Text, Unicode, [], change, err, has_infix, if◌then◌else◌, is_empty,
  none, not, pure, some, strip, text, text_eq, true, ℕ, ◌++◌, ◌==◌, ◌>>=◌, ◌>>◌, ◌∷◌,
}
use platform_api.Wizard.Steps.{Box, CommandOutput, StepResult, VerifyCheck, all_ok, mark_done}
use platform_api.Wizard.Machine.{Halt, Machine, Step, await, child_path, crashed, plain, with_input}
use platform_api.Wizard.Waiting.{compose_command, wait_for_log}
use platform_api.Wizard.Pages.{page, run_for, run_only}
use platform_api.Wizard.Pages.Certificates.{
  der_ingress_service, der_tls, first_certificate, https_service, match_check, name_check,
  pending_host, pending_key, running_check, served_check, skipped_check, tls,
}

module _ {S : Type 0} (u : Unicode) (m : Machine S) (fuel : ℕ) (ems_dir : Text) where
  -- a file that must be there: `path.read_text()`
  abbrev found : Option Text → Result Halt Text
  found none = err (crashed (text "no such file"))
  found (some content) = Result.ok content

  unfoldable pub read_file : Text → Step S Text
  read_file path s = (found (m.read_text path s), s)

  abbrev pub checked : CommandOutput → Result Halt Text
  checked out =
      if out.returncode == 0 then Result.ok out.stdout else err (crashed (text "openssl failed"))

  -- `_openssl`
  unfoldable pub openssl : List Text → Option Text → Step S Text
  openssl args stdin s =
      let (out, t) = m.run (record { args = text "openssl" ∷ args; input = stdin; env = [] }) s in
      (checked out, t)

  -- `_match_check`
  pub match : Text → Step S VerifyCheck
  match leaf = do
    cert_key ← openssl (text "x509" ∷ text "-noout" ∷ text "-pubkey" ∷ []) (some leaf)
    box_key ← openssl (text "pkey" ∷ text "-pubout" ∷ text "-in" ∷ (pending_key ems_dir) ∷ []) none
    pure (match_check (text_eq cert_key box_key))

  -- `_name_check`
  pub named : Text → Text → Step S VerifyCheck
  named leaf host = do
    out ← run_for u m (
        with_input (text "openssl" ∷ text "x509" ∷ text "-noout" ∷ text "-checkhost" ∷ host ∷ [])
          leaf)
    pure (name_check u host out.stdout)

  -- one round of the loop of `_install`
  pub install_in : (Text → Text) → Text → Text → Text → Text → Text → Step S (Unit {0})
  install_in within directory cert_name key_name chain key = do
    change (m.mkdir directory)
    change (m.write_text (within cert_name) chain)
    change (m.touch (within key_name) 384)
    change (m.chmod (within key_name) 384)
    change (m.write_text (within key_name) key)

  -- `_install`
  pub install : Text → Step S (Unit {0})
  unfolding install_in
  install chain = do
    key ← read_file (pending_key ems_dir)
    install_in (tls ems_dir) (child_path ems_dir (text "tls")) (text "server.pem")
        (text "server-key.pem") chain key
    install_in (der_tls ems_dir) (child_path ems_dir (text "der-control-tls")) (text "cert.pem")
        (text "key.pem") chain key
    change (m.unlink (pending_key ems_dir))

  pub running : Text → Step S Bool
  running service = do
    out ← run_for u m (
        compose_command ems_dir
          (text "ps" ∷ text "-q" ∷ text "--status" ∷ text "running" ∷ service ∷ []))
    pure (not (is_empty (strip u.is_space out.stdout)))

  -- `_reload_der_ingress`
  pub reload_der_ingress : Step S (Unit {0})
  unfolding running
  reload_der_ingress = do
    up ← running der_ingress_service
    if up
        then run_only u m (
            compose_command ems_dir
              (text "exec" ∷ der_ingress_service ∷ text "nginx" ∷ text "-s" ∷ text "reload" ∷ []))
        else pure tt

  -- `_running_check` and `_served_check`
  pub serving_checks : Text → Text → Step S (List VerifyCheck)
  unfolding running
  serving_checks leaf host = do
    up ← running https_service
    out ← run_for u m (
        with_input
          (text "openssl"
            ∷ text "s_client"
            ∷ text "-connect"
            ∷ text "127.0.0.1:443"
            ∷ text "-servername"
            ∷ host
            ∷ [])
          [])
    pure (running_check up ∷ served_check host (has_infix out.stdout (strip u.is_space leaf)) ∷ [])

  -- the configuration, the front end, and the wait for it
  pub start_front_end : Step S (Unit {0})
  unfolding reload_der_ingress
  start_front_end = do
    run_only u m (
        plain (
          text "curl"
          ∷ text "-fsSL"
          ∷ text "https://arcnode-public.s3.us-east-1.amazonaws.com/compose/https-ingress.conf"
          ∷ text "-o"
          ∷ child_path ems_dir (text "https-ingress.conf")
          ∷ []))
    run_only u m (
        compose_command ems_dir
          (text "up" ∷ text "-d" ∷ text "--force-recreate" ∷ https_service ∷ []))
    ready ← await (wait_for_log u m ems_dir https_service (text "start worker processes") fuel)
    reload_der_ingress

  -- `apply` past the two first checks
  pub serve : Text → Text → Text → List VerifyCheck → Step S (List VerifyCheck)
  unfolding install start_front_end serving_checks
  serve chain leaf host checks = do
    install chain
    start_front_end
    more ← serving_checks leaf host
    pure (checks ++ more)

  -- the two first checks
  pub first_checks : Text → Text → Step S (List VerifyCheck)
  unfolding match named
  first_checks leaf host = do
    matches ← match leaf
    issued ← named leaf host
    pure (matches ∷ issued ∷ [])

  pub https_work : Text → Step S (List VerifyCheck)
  unfolding serve first_checks first_certificate
  https_work chain = do
    host ← read_file (pending_host ems_dir)
    checks ← first_checks (first_certificate u chain) host
    if all_ok checks then serve chain (first_certificate u chain) host checks else pure checks

  unfoldable pub apply_https : Text → Box S → Result Halt StepResult × Box S
  unfolding page
  apply_https chain = page (text "https") (text "HTTPS is already set up") (https_work chain)

  -- `request_signing`
  pub request_signing : Text → Step S Text
  request_signing hostname = do
    change (m.mkdir (child_path ems_dir (text "tls")))
    out ←
        openssl
          (text "req"
            ∷ text "-new"
            ∷ text "-newkey"
            ∷ text "ec"
            ∷ text "-pkeyopt"
            ∷ text "ec_paramgen_curve:prime256v1"
            ∷ text "-nodes"
            ∷ text "-keyout"
            ∷ (pending_key ems_dir)
            ∷ text "-subj"
            ∷ (text "/CN=" ++ hostname)
            ∷ text "-addext"
            ∷ (text "subjectAltName=DNS:" ++ hostname)
            ∷ [])
          none
    change (m.chmod (pending_key ems_dir) 384)
    change (m.write_text (pending_host ems_dir) hostname)
    pure out

-- `HttpsService.skip`
unfoldable pub skip_https : {S : Type 0} → Box S → StepResult × Box S
unfolding mark_done
skip_https box = (
  record { verified = true; checks = skipped_check ∷ [] },
  record { markers = mark_done (text "https") box.markers; system = box.system },
)
