-- ===== src/Wizard/Pages/Telemetry.antt =====
-- src/wizard/telemetry_writer_verify.py: the checks of the telemetry page.
use platform_api.Prelude.{
  Bool, List, Option, Text, Unicode, [], decimal, false, gets, if◌then◌else◌, is_empty, none, not,
  pure, some, strip, text, true, ℕ, ◌++◌, ◌>>=◌, ◌∷◌,
}
use platform_api.Wizard.Steps.{VerifyCheck}
use platform_api.Wizard.Secrets.{read_secret}
use platform_api.Wizard.Machine.{Machine, Step}
use platform_api.Wizard.Waiting.{compose_command}
use platform_api.Wizard.Pages.{has_line, run_for, shown}

abbrev pub writer_service : Text
writer_service = text "telemetry-writer"

abbrev writer_hint : Text
writer_hint = text "sudo docker compose -f /opt/arcnode/docker-compose.yaml logs telemetry-writer"

abbrev writer_row : Text → Bool → Text → Text → Text → VerifyCheck
writer_row name passed found missing hint = record {
  name = name;
  ok = passed;
  detail = if passed then found else missing;
  hint = hint;
}

abbrev is_saved : Option Text → Bool
is_saved none = false
is_saved (some value) = true

module _ {S : Type 0} (u : Unicode) (m : Machine S) (fuel : ℕ) (ems_dir : Text) where
  -- `_timeseries_saved`
  pub timeseries_saved : Text → Option Text → VerifyCheck
  timeseries_saved secrets file =
      writer_row (text "Timeseries database saved")
        (is_saved (read_secret (text "TIMESERIES_URL") file)) (text "TIMESERIES_URL in " ++ secrets)
        (text "TIMESERIES_URL missing — finish the PostgreSQL page")
        (text "sudo cut -d= -f1 " ++ secrets)

  -- `_retention`
  pub retention : ℕ → Step S VerifyCheck
  retention days = do
    logs ← run_for u m (compose_command ems_dir (text "logs" ∷ writer_service ∷ []))
    pure (
        has_line u m logs (text "measurements retention: " ++ (decimal days ++ text " days"))
          (text "Keeps " ++ (decimal days ++ text " days of measurements"))
          (text "measurements retention: " ++ (decimal days ++ text " days"))
          (text "the writer hasn't set this window yet") writer_hint)

  -- `verify_telemetry`
  pub verify_telemetry : Text → ℕ → Step S (List VerifyCheck)
  verify_telemetry secrets days = do
    out ← run_for u m (
        compose_command ems_dir
          (text "ps" ∷ text "-q" ∷ text "--status" ∷ text "running" ∷ writer_service ∷ []))
    logs ← run_for u m (compose_command ems_dir (text "logs" ∷ writer_service ∷ []))
    file ← gets (m.read_text secrets)
    kept ← retention days
    pure (
        writer_row (text "Telemetry writer running") (not (is_empty (strip u.is_space out.stdout)))
          (text "running") (shown u out) writer_hint
        ∷ has_line u m logs (text "reason_code=Success") (text "Subscribed to the measurements")
            (text "subscribed (reason_code=Success)") (text "no subscription in the log yet")
            writer_hint
        ∷ timeseries_saved secrets file
        ∷ kept
        ∷ [])
