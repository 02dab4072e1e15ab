-- ===== src/Wizard/Pages/Credentials.antt =====
-- src/wizard/hivemq_credentials.py, with the accounts of hivemq_verify.py and the texts of the page.
pub mod Roles
use platform_api.Prelude.{
  Bool, List, Option, Text, [], contains, if◌then◌else◌, insert, is_empty, join, keep, length, map,
  not, refl, starts_with, suc, text, zero, ℕ, ◌++◌, ◌-◌, ◌∷◌, ◌≡◌,
}
use platform_api.Wizard.Steps.{VerifyCheck}
use platform_api.Wizard.Secrets.{Values, key_of, lines_of, saved_ok}
use platform_api.Wizard.Pages.Neo4jTexts.{replace_char}

pub record BrokerPasswords : Type 0 where
  pub service_password : Text
  pub operator_password : Text
  pub viewer_password : Text

-- which field holds the password of an account
pub data Role : Type 0 where
  service_role operator_role viewer_role : Role

abbrev pub password_of : Role → BrokerPasswords → Text
password_of service_role passwords = passwords.service_password
password_of operator_role passwords = passwords.operator_password
password_of viewer_role passwords = passwords.viewer_password

pub record Account : Type 0 where
  pub account : Text
  pub username : Text
  pub env_name : Text
  pub role : Role

abbrev account_row : Text → Text → Text → Role → Account
account_row account username env_name role = record {
  account = account;
  username = username;
  env_name = env_name;
  role = role;
}

abbrev pub accounts : List Account
accounts =
    account_row (text "gateway") (text "arcnode_gateway") (text "MQTT_GATEWAY_PASSWORD")
      service_role
    ∷ account_row (text "operator") (text "arcnode_operator") (text "MQTT_OPERATOR_PASSWORD")
        operator_role
    ∷ account_row (text "viewer") (text "arcnode_viewer") (text "MQTT_VIEWER_PASSWORD") viewer_role
    ∷ account_row (text "device_api") (text "arcnode_device_api") (text "MQTT_DEVICE_API_PASSWORD")
        service_role
    ∷ account_row (text "telemetry_writer") (text "arcnode_telemetry_writer")
        (text "MQTT_TELEMETRY_WRITER_PASSWORD") service_role
    ∷ account_row (text "der_control_api") (text "arcnode_der_control_api")
        (text "MQTT_DER_CONTROL_API_PASSWORD") service_role
    ∷ []

-- `text.replace(old, new)` for an old text that is not empty; `skipped` counts what is left of a match
unfoldable pub replace_from : ℕ → Text → Text → Text → Text
replace_from skipped old new [] = []
replace_from (suc skipped) old new (c ∷ s) = replace_from skipped old new s
replace_from zero old new (c ∷ s) =
    let matched = replace_from (length old - 1) old new s in
    let unmatched = replace_from zero old new s in
    if starts_with (c ∷ s) old then new ++ matched else c ∷ unmatched

-- `escape` of xml.sax.saxutils
unfoldable pub escape : Text → Text
escape value =
    replace_char 60 (text "&lt;")
      (replace_char 62 (text "&gt;") (replace_char 38 (text "&amp;") value))

-- `render_credentials`
unfoldable pub render_credentials : Text → Values → Text
unfolding replace_from escape
render_credentials rendered [] = rendered
render_credentials rendered ((name, password) ∷ passwords) =
    render_credentials
      (replace_from zero (text "__" ++ (name ++ text "__")) (escape password) rendered) passwords

abbrev pub broker_hint : Text
broker_hint = text "sudo docker compose -f /opt/arcnode/docker-compose.yaml logs hivemq"

abbrev pub onprem_override : Text
onprem_override =
    text
      "networks:\n  default:\n    name: arcnode\n    external: true\nservices:\n  hmi:\n    ports:\n      - \"80:80\"\n  # Only 443: http://<ip>/ stays on the hmi itself, so it keeps working.\n  https-ingress:\n    ports: !override\n      - \"443:443\"\n"

abbrev pub broker_row : Text → Bool → Text → Text → VerifyCheck
broker_row name passed found missing = record {
  name = name;
  ok = passed;
  detail = if passed then found else missing;
  hint = broker_hint;
}

-- `saved_check`, of a file and whether only root may read it
pub saved_check : Text → Option Text → Bool → List Text → VerifyCheck
saved_check path file root_only names =
    let present = map key_of (lines_of file) in
    let missing = keep (λ name. not (contains name present)) names in
    record {
      name = text "Saved for the EMS services";
      ok = saved_ok file root_only names;
      detail =
          if not (is_empty missing)
          then path ++ (text " is missing " ++ join (text ", ") missing)
          else if not root_only
          then path ++ text " is readable by other users"
          else path ++ (text " (root only): " ++ join (text ", ") names);
      hint = text "sudo ls -l " ++ (path ++ (text "; sudo cut -d= -f1 " ++ path));
    }

-- the names of the two logins in customer_inputs.py
abbrev pub operator_login : Text
operator_login = text "AUTH_OPERATOR_PW"

abbrev pub viewer_login : Text
viewer_login = text "AUTH_VIEWER_PW"

-- `_env_values`
unfoldable pub env_values : BrokerPasswords → Values
env_values passwords = insert viewer_login passwords.viewer_password (
    insert operator_login passwords.operator_password
      (map (λ (row : Account). (row.env_name, password_of row.role passwords)) accounts))

-- A password with the placeholder of a later account in it: the later password is put in its middle.
later_placeholder :
    render_credentials
      (text "<a>__A__</a><b>__B__</b>")
      ((text "A", text "x__B__y") ∷ (text "B", text "<2>") ∷ [])
    ≡ text "<a>x&lt;2&gt;y</a><b>&lt;2&gt;</b>"
unfolding render_credentials replace_from escape replace_char
later_placeholder = refl
