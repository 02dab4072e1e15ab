-- ===== src/Wizard/Pages/DerRows.antt =====
-- src/wizard/der_control_service.py: the overlay, the rows and the conclusion of its page.
use platform_api.Prelude.{
  Bool, List, Option, Result, Text, [], all, decimal, err, if◌then◌else◌, text, text_eq, true, ℕ,
  ◌++◌, ◌||◌,
}
use platform_api.Wizard.Steps.{Box, Markers, StepResult, VerifyCheck, mark_done}
use platform_api.Wizard.Machine.{Halt}

abbrev pub der_control_service : Text
der_control_service = text "der-control-api"

abbrev pub identity_name : Text
identity_name = text "Utility identity loaded"

abbrev pub der_hint : Text
der_hint = text "sudo docker compose -f /opt/arcnode/docker-compose.yaml logs der-control-api"

-- the per-site overlay
pub record DerControlCfg : Type 0 where
  pub site_id : Text
  pub public_base_url : Text
  pub utility_mirror_url : Option Text

-- What the page takes from libraries: the site id of the order's file, the overlay to and from YAML, and
-- the LFDI of a certificate. `ingress_address` finds the source address in a route.
pub record DerLibrary : Type 0 where
  pub site_id_of : Text → Result Halt Text
  pub dump : DerControlCfg → Text
  pub reads_as : Text → DerControlCfg → Result Halt Bool
  pub lfdi_of : Text → Result Halt Text
  pub source_address : Text → Option Text
  pub placeholder_truststore : Text

abbrev pub running_row : Text → Text → Text → Bool → VerifyCheck
running_row name yes_detail hint up = record {
  name = name;
  ok = up;
  detail = if up then yes_detail else text "not running";
  hint = hint;
}

abbrev pub identity_check : Text → Bool → VerifyCheck
identity_check lfdi loaded = record {
  name = identity_name;
  ok = loaded;
  detail =
      if loaded
      then text "LFDI " ++ lfdi
      else text "register LFDI " ++ (lfdi ++ text " with the utility; not loaded yet");
  hint = der_hint;
}

abbrev pub health_check : ℕ → Bool → VerifyCheck
health_check code up = record {
  name = text "DER control API healthy";
  ok = up;
  detail =
      if up
      then text "actuator reports UP"
      else text "health not UP (curl exit " ++ (decimal code ++ text ")");
  hint = der_hint;
}

abbrev pub saved_row : Text → Bool → VerifyCheck
saved_row path saved = record {
  name = text "Saved for the DER control API";
  ok = saved;
  detail = if saved then path else text "missing or different";
  hint = text "sudo cat " ++ path;
}

abbrev pub skipped_der : VerifyCheck
skipped_der = record {
  name = text "Skipped for now";
  ok = true;
  detail = text "add the utility link later";
  hint = [];
}

-- the checks that count: all but that of the utility's identity
abbrev pub counted_ok : List VerifyCheck → Bool
counted_ok checks = all (λ (c : VerifyCheck). text_eq c.name identity_name || c.ok) checks

abbrev pub der_finish :
    {S : Type 0} → Markers → Result Halt (List VerifyCheck) × S → Result Halt StepResult × Box S
der_finish markers (Result.ok checks, s) = (
  Result.ok (record { verified = counted_ok checks; checks = checks }),
  record {
    markers = if counted_ok checks then mark_done (text "der_control_api") markers else markers;
    system = s;
  },
)
der_finish markers (err e, s) = (err e, record { markers = markers; system = s })
