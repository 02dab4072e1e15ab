-- ===== src/Wizard/Pages/Certificates.antt =====
-- src/wizard/https_service.py: the certificate, the paths and the rows of its page.
use platform_api.Prelude.{
  Bool, Text, Unicode, [], has_infix, if◌then◌else◌, starts_with, strip, text, true, ◌++◌, ◌∷◌,
}
use platform_api.Wizard.Steps.{VerifyCheck}
use platform_api.Wizard.Machine.{child_path}

abbrev pub https_service : Text
https_service = text "https-ingress"

abbrev pub der_ingress_service : Text
der_ingress_service = text "der-control-ingress"

abbrev pub log_hint : Text
log_hint = text "sudo docker compose -f /opt/arcnode/docker-compose.yaml logs https-ingress"

abbrev pub end_line : Text
end_line = text "-----END CERTIFICATE-----"

-- `text.split(end)[0]` for an end that is not empty: what stands before it
unfoldable pub before_first : Text → Text → Text
before_first end [] = []
before_first end (c ∷ s) =
    let rest = before_first end s in if starts_with (c ∷ s) end then [] else c ∷ rest

-- the first block of the chain
unfoldable pub first_certificate : Unicode → Text → Text
unfolding before_first
first_certificate u chain =
    strip u.is_space (before_first end_line chain) ++ (10 ∷ end_line ++ 10 ∷ [])

abbrev pub match_check : Bool → VerifyCheck
match_check matches = record {
  name = text "Certificate matches the key made on this box";
  ok = matches;
  detail =
      if matches
      then text "signed from this box's request"
      else text "signed for a different key — give IT the request from this page";
  hint = [];
}

abbrev pub name_check : Unicode → Text → Text → VerifyCheck
name_check u host out = record {
  name = text "Issued for " ++ host;
  ok = has_infix out (text "does match");
  detail = strip u.is_space out;
  hint = text "ask IT to put the name in the certificate's Subject Alternative Name";
}

abbrev pub running_check : Bool → VerifyCheck
running_check running = record {
  name = text "HTTPS front end running";
  ok = running;
  detail = if running then text "listening on 443" else text "not running";
  hint = log_hint;
}

abbrev pub served_check : Text → Bool → VerifyCheck
served_check host served = record {
  name = text "https://" ++ (host ++ text " serves this certificate");
  ok = served;
  detail = if served then text "served on 443" else text "443 serves a different certificate";
  hint = text "openssl s_client -connect 127.0.0.1:443 -servername " ++ host;
}

abbrev pub skipped_check : VerifyCheck
skipped_check = record {
  name = text "Skipped for now";
  ok = true;
  detail = text "the HMI stays on http://<this box's address>/";
  hint = [];
}

module _ (ems_dir : Text) where
  abbrev pub tls : Text → Text
  tls name = child_path (child_path ems_dir (text "tls")) name

  abbrev pub der_tls : Text → Text
  der_tls name = child_path (child_path ems_dir (text "der-control-tls")) name

  abbrev pub pending_key : Text
  pending_key = tls (text "pending-key.pem")

  abbrev pub pending_host : Text
  pending_host = tls (text "pending-host")
