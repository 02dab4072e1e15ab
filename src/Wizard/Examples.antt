-- ===== src/Wizard/Examples.antt =====
-- Runs of src/wizard on small inputs.
use platform_api.Prelude.{
  All, List, Option, Text, [], arith, ascii, false, join, lookup, map, none, ok, refl, some, text,
  text_eq, true, ℕ, ◌&&◌, ◌++◌, ◌+◌, ◌||◌, ◌∷◌, ◌≡◌, ◌⊎◌,
}
use platform_api.Wizard.Steps.{
  Box, CommandOutput, Markers, VerifyCheck, all_ok, apply_page, completed, is_done,
}
use platform_api.Wizard.Steps.Laws.{apply_page-marks}
use platform_api.Wizard.Secrets.{Values, read_secret, save_secrets}
use platform_api.Wizard.Secrets.Laws.{IsAssignment, first_of, read_secret-save_secrets}
use platform_api.Wizard.Lockdown.{Sshd, apply_lockdown, dropin_text, password_kept}
use platform_api.Wizard.Lockdown.Laws.{apply_lockdown-keeps}
use platform_api.Wizard.Inputs.{is_hex, lfdis_are_40_hex, lowered}
use platform_api.Wizard.Inputs.Lfdi.{IsId, lfdis_are_40_hex-stable}

abbrev some_done : Markers
some_done = text "ssh" ∷ text "preflight" ∷ []

resumes : completed some_done ≡ text "preflight" ∷ text "ssh" ∷ []
unfolding completed
resumes = refl

abbrev passes : ℕ → List VerifyCheck × ℕ
passes n = (password_kept ∷ [], n + 1)

apply_page-marks_example :
    is_done
      (text "docker")
      (apply_page
        (text "docker")
        (text "done")
        passes
        (record { markers = some_done; system = 0 })).1.markers
    ≡ (is_done (text "docker") some_done
        || (text_eq (text "docker") (text "docker") && all_ok (passes 0).0))
apply_page-marks_example =
    apply_page-marks (text "docker") (text "done") passes
      (record { markers = some_done; system = 0 }) (text "docker")

abbrev two_values : Values
two_values = (text "URL", text "pg://h=1") ∷ (text "KEY", text "k") ∷ []

abbrev old_file : Option Text
old_file = some (text "A=1\nURL=old\n")

good_values : All IsAssignment two_values
good_values = (
  (
    (refl, (refl, (refl, tt))),
    (refl, (refl, (refl, tt))),
    (refl, (refl, (refl, (refl, (refl, (refl, (refl, (refl, tt)))))))),
  ),
  (((refl, (refl, (refl, tt))), (refl, (refl, (refl, tt))), (refl, tt)), tt),
)

read_secret-save_secrets_example :
    read_secret (text "URL") (some (save_secrets old_file two_values))
    ≡ first_of (lookup (text "URL") two_values) (read_secret (text "URL") old_file)
read_secret-save_secrets_example =
    read_secret-save_secrets old_file (text "URL", text "pg://h=1") ((text "KEY", text "k") ∷ [])
      (text "URL") good_values

abbrev answer_no : List Text → ℕ → CommandOutput × ℕ
answer_no args n = (record { returncode = 0; stdout = text "passwordauthentication no\n" }, n + 1)

abbrev proven_box : Box (Sshd ℕ)
proven_box = record { markers = some_done; system = record { dropin = none; system = 0 } }

apply_lockdown-keeps_example :
    ((apply_lockdown ascii answer_no (text "op") true proven_box).1.system.dropin ≡ none)
    ⊎ ((true ≡ true)
        × (is_done (text "ssh") some_done ≡ true)
        × (is_done (text "ssh_lockdown") some_done ≡ false)
        × ((apply_lockdown ascii answer_no (text "op") true proven_box).1.system.dropin
            ≡ some dropin_text))
apply_lockdown-keeps_example = apply_lockdown-keeps ascii answer_no (text "op") true proven_box

abbrev one_id : Text
one_id = text "3E4F45AB31EDFE5B67E343E5E4562E31E23E23E5"

abbrev stored_id : Text
stored_id = text "3e4f45ab31edfe5b67e343e5e4562e31e23e23e5"

accepted_id : lfdis_are_40_hex ascii (one_id ++ text ",\n") ≡ ok stored_id
unfolding lfdis_are_40_hex
accepted_id = refl

hex_apart : (c : ℕ) → is_hex c ≡ true → ascii.is_space c ≡ false
hex_apart c h = ground arith

lfdis_are_40_hex-stable_example :
    (ids : List Text) × (stored_id ≡ join (text " ") ids)
    × All IsId ids
    × (map lowered ids ≡ ids)
    × (lfdis_are_40_hex ascii stored_id ≡ ok stored_id)
lfdis_are_40_hex-stable_example =
    lfdis_are_40_hex-stable ascii (one_id ++ text ",\n") stored_id refl hex_apart accepted_id
