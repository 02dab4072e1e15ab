-- ===== src/Wizard/Pages/Https/Examples.antt =====
-- Runs of the certificate page of src/wizard/https_service.py on a small box.
use platform_api.Prelude.{
  List, Result, Text, [], answer, ascii, change, err, false, none, pure, refl, some, text, true,
  ◌==◌, ◌>>=◌, ◌>>◌, ◌∷◌, ◌≡◌, ◌⊎◌,
}
use platform_api.Wizard.Steps.{Box, StepResult, VerifyCheck, conclude, is_done}
use platform_api.Wizard.Machine.{await, crashed}
use platform_api.Wizard.Waiting.{compose_command, line_logged, round, wait_for_log, wait_until}
use platform_api.Wizard.Pages.{page, run_for, run_only}
use platform_api.Wizard.Pages.Host.{Host, ems, logs, no_files, put, quiet_machine}
use platform_api.Wizard.Pages.Https.{
  apply_https, first_checks, https_work, install, install_in, match, named, openssl, read_file,
  reload_der_ingress, running, serve, serving_checks, start_front_end,
}
use platform_api.Wizard.Pages.Https.Install.{install-installs}
use platform_api.Wizard.Pages.Https.Guard.{IsSigned, apply_https-guarded, box_key}
use platform_api.Wizard.Pages.Https.Retry.{apply_https-retry, runs}
use platform_api.Wizard.Pages.Certificates.{
  before_first, der_tls, first_certificate, match_check, name_check, pending_host, pending_key, tls,
}

abbrev with_key : Host
with_key =
    put (pending_host ems) (some (text "ems")) (put (pending_key ems) (some (text "K")) no_files)

abbrev key_box : Box Host
key_box = record { markers = []; system = with_key }

install-installs_example :
    (t : Host) × (install ascii quiet_machine 1 ems (text "C") with_key ≡ (Result.ok tt, t))
    × (quiet_machine.read_text (tls ems (text "server.pem")) t ≡ some (text "C"))
    × (quiet_machine.read_text (tls ems (text "server-key.pem")) t ≡ some (text "K"))
    × (quiet_machine.read_text (der_tls ems (text "cert.pem")) t ≡ some (text "C"))
    × (quiet_machine.read_text (der_tls ems (text "key.pem")) t ≡ some (text "K"))
    × (quiet_machine.read_text (pending_key ems) t ≡ none)
install-installs_example =
    install-installs ascii quiet_machine 1 ems (text "C") (text "K") with_key refl

apply_https-guarded_example :
    ((apply_https ascii quiet_machine 1 ems (text "C") key_box).1.system.files
        (tls ems (text "server.pem"))
      ≡ none)
    ⊎ ((is_done (text "https") [] ≡ false) × IsSigned ascii quiet_machine 1 ems (text "C") with_key)
apply_https-guarded_example =
    apply_https-guarded ascii quiet_machine 1 ems (tls ems (text "server.pem"))
      (λ leaf host s. (refl, refl, refl)) (text "C") key_box

abbrev two_checks : List VerifyCheck
two_checks = match_check true ∷ name_check ascii (text "ems") logs ∷ []

both_passed :
    (first_checks ascii quiet_machine 1 ems
      (first_certificate ascii (text "C"))
      (text "ems")
      with_key).0
    ≡ Result.ok two_checks
unfolding first_checks match named openssl run_for answer ◌>>=◌ pure
both_passed = refl

unverified :
    (result : StepResult) × ((apply_https ascii quiet_machine 1 ems (text "C") key_box).0
      ≡ Result.ok result)
    × (result.verified ≡ false)
unfolding apply_https page conclude is_done https_work first_certificate before_first read_file
    first_checks match named openssl serve install install_in start_front_end reload_der_ingress
    serving_checks running run_for run_only answer change await wait_for_log wait_until round
    line_logged compose_command ◌>>=◌ ◌>>◌ pure
unverified = (_, refl, refl)

key_is_missing :
    (s : Host)
    → quiet_machine.read_text (pending_key ems) s ≡ none
    → ((quiet_machine.run (box_key ems) s).0.returncode == 0) ≡ false
key_is_missing s e = rw e refl

apply_https-retry_example :
    (reason : Text) × ((apply_https ascii quiet_machine 1 ems (text "D") (
        runs ascii quiet_machine 1 ems
          (λ c s k e. e)
          (λ s e. e)
          key_is_missing
          (text "D" ∷ text "E" ∷ [])
          (apply_https ascii quiet_machine 1 ems (text "C") key_box).1)).0
      ≡ err (crashed reason))
apply_https-retry_example =
    apply_https-retry ascii quiet_machine 1 ems (λ c s k e. e) (λ s e. e) key_is_missing (text "C")
      (text "D") (text "D" ∷ text "E" ∷ []) key_box unverified.0
      (text "ems", two_checks, refl, both_passed, refl) unverified.1 unverified.2
