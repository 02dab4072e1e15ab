-- ===== src/Wizard/Pages/Broker.antt =====
-- src/wizard/hivemq_service.py and hivemq_verify.py.
use platform_api.Prelude.{
  Bool, List, Option, Result, Text, Unicode, [], change, decimal, err, gets, if◌then◌else◌,
  is_empty, length, map, none, not, pure, some, strip, text, ℕ, ◌++◌, ◌+◌, ◌==◌, ◌>>=◌, ◌>>◌, ◌∷◌,
}
use platform_api.Wizard.Steps.{Box, StepResult, VerifyCheck}
use platform_api.Wizard.Machine.{Command, Halt, Machine, Step, await, child_path, crashed}
use platform_api.Wizard.Waiting.{compose_command, onprem_override_file, wait_for_log}
use platform_api.Wizard.Pages.{docker_network, page, run_for, run_only, save_at, shown}
use platform_api.Wizard.Pages.Credentials.{
  Account, BrokerPasswords, accounts, broker_hint, broker_row, env_values, onprem_override,
  operator_login, password_of, render_credentials, saved_check, viewer_login,
}

module _ {S : Type 0} (u : Unicode) (m : Machine S) (fuel : ℕ) (ems_dir : Text) where
  -- `_write_files`
  pub write_files : BrokerPasswords → Step S (Unit {0})
  write_files passwords = do
    change (m.write_text (child_path ems_dir (text "config.env")) [])
    file ← gets (m.read_text (child_path ems_dir (text "credentials.template.xml")))
    template ← (λ s. (template_of file, s))
    change (m.touch (child_path ems_dir (text "credentials.xml")) 384)
    change (m.chmod (child_path ems_dir (text "credentials.xml")) 384)
    change (
        m.write_text (child_path ems_dir (text "credentials.xml"))
          (render_credentials template (map (placeholder passwords) accounts)))
    change (m.write_text (child_path ems_dir onprem_override_file) onprem_override)
    where
      template_of : Option Text → Result Halt Text
      template_of none = err (crashed (text "no such file"))
      template_of (some template) = Result.ok template

      placeholder : BrokerPasswords → Account → Text × Text
      placeholder passwords row =
          (u.upper row.account ++ text "_PASSWORD", password_of row.role passwords)

  abbrev broker_probe : Text → List Text → List (Text × Text) → Command
  broker_probe script options env = record {
    args =
        text "docker" ∷ text "run" ∷ text "--rm" ∷ options
        ++ (text "--network"
            ∷ docker_network
            ∷ text "eclipse-mosquitto:2"
            ∷ text "sh"
            ∷ text "-c"
            ∷ (text "mosquitto_sub " ++ script)
            ∷ []);
    input = none;
    env = env;
  }

  abbrev topic_arguments : Text
  topic_arguments = text "-t 'sites/+/devices/+/measurements/#' -E"

  -- `_container_running`
  pub container_running : Step S VerifyCheck
  container_running = do
    out ← run_for u m (
        compose_command ems_dir
          (text "ps" ∷ text "-q" ∷ text "--status" ∷ text "running" ∷ text "hivemq" ∷ []))
    pure (
        broker_row (text "HiveMQ container running") (not (is_empty (strip u.is_space out.stdout)))
          (text "running") (shown u out))

  -- `_anonymous_refused`
  pub anonymous_refused : Step S VerifyCheck
  anonymous_refused = do
    out ← run_for u m (broker_probe (text "-h hivemq -p 1883 " ++ topic_arguments) [] [])
    pure (
        broker_row (text "Refuses anonymous logins") (not (out.returncode == 0))
          (text "connection without a login was refused") (text "anonymous login accepted"))

  -- the loop of `_logins_accepted`
  pub count_accepted : BrokerPasswords → ℕ → List Account → Step S ℕ
  count_accepted passwords accepted [] = pure accepted
  count_accepted passwords accepted (row ∷ rows) =
      let yes_rest = count_accepted passwords (accepted + 1) rows in
      let no_rest = count_accepted passwords accepted rows in
      do
        out ← run_for u m (
            broker_probe
              (text "-h hivemq -p 1883 -u "
                ++ (row.username ++ (text " -P \"$MQTT_PASSWORD\" " ++ topic_arguments)))
              (text "-e" ∷ text "MQTT_PASSWORD" ∷ [])
              ((text "MQTT_PASSWORD", password_of row.role passwords) ∷ []))
        if out.returncode == 0 then yes_rest else no_rest

  -- `_logins_accepted`
  pub logins_accepted : BrokerPasswords → Step S VerifyCheck
  unfolding count_accepted
  logins_accepted passwords = do
    accepted ← count_accepted passwords 0 accounts
    pure (record {
      name = text "Accepts each account's password";
      ok = accepted == length accounts;
      detail =
          decimal accepted
          ++ (text " of " ++ (decimal (length accounts) ++ text " logins accepted"));
      hint = broker_hint;
    })

  abbrev saved_names : List Text
  saved_names =
      map (λ (row : Account). row.env_name) accounts ++ (operator_login ∷ viewer_login ∷ [])

  -- `apply` past its guard; `root_only` says whether only root may read a path.
  pub hivemq_work : (Text → S → Bool) → Text → Text → BrokerPasswords → Step S (List VerifyCheck)
  unfolding write_files
  hivemq_work root_only secrets_dir secrets passwords = do
    write_files passwords
    save_at u m secrets_dir secrets (env_values passwords)
    run_only u m (compose_command ems_dir (text "up" ∷ text "-d" ∷ text "hivemq" ∷ []))
    ready ← await (wait_for_log u m ems_dir (text "hivemq") (text "Started HiveMQ") fuel)
    running ← container_running
    refused_all ← anonymous_refused
    logins ← logins_accepted passwords
    file ← gets (m.read_text secrets)
    only ← gets (root_only secrets)
    pure (running ∷ refused_all ∷ logins ∷ saved_check secrets file only saved_names ∷ [])

  unfoldable pub apply_hivemq :
      (Text → S → Bool) → Text → Text → BrokerPasswords → Box S → Result Halt StepResult × Box S
  unfolding page
  apply_hivemq root_only secrets_dir secrets passwords =
      page (text "hivemq") (text "HiveMQ is already set up")
        (hivemq_work root_only secrets_dir secrets passwords)
