-- ===== src/Wizard/Pages/Credentials/Roles.antt =====
-- One password per role: what src/wizard/hivemq_service.py leaves for the services.
use platform_api.Prelude.{Bool, Text, all, not, ◌&&◌, ◌==◌}
use platform_api.Wizard.Lines.{is_break}
use platform_api.Wizard.Secrets.{equals_sign}
use platform_api.Wizard.Machine.{Machine}

-- no sign and no line break
abbrev is_name : Text → Bool
is_name name = all (λ c. not (c == equals_sign) && not (is_break c)) name
