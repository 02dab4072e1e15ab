-- ===== src/Wizard/Lockdown.antt =====
-- src/wizard/ssh_lockdown_service.py: the page that turns password login off.
pub mod Laws
use platform_api.Prelude.{
  Bool, List, Option, Result, Text, Unicode, [], decimal, err, false, if◌then◌else◌, is_empty, some,
  starts_with, strip, text, text_eq, true, ℕ, ◌++◌, ◌∷◌,
}
use platform_api.Wizard.Lines.{splitlines}
use platform_api.Wizard.Steps.{
  Box, CommandOutput, PageError, StepResult, VerifyCheck, apply_page, is_done, ssh_key_not_proven,
  step_already_done,
}

abbrev pub dropin_text : Text
dropin_text =
    text
      "# Written by the ArcNode setup wizard: SSH by key only.\nPasswordAuthentication no\nKbdInteractiveAuthentication no\n"

abbrev keep_hint : Text
keep_hint =
    text
      "turn it off later: printf 'PasswordAuthentication no\\nKbdInteractiveAuthentication no\\n' | sudo tee /etc/ssh/sshd_config.d/99-arcnode-key-only.conf && sudo systemctl reload ssh"

abbrev pub setting_name : Text
setting_name = text "passwordauthentication"

-- the content of the drop-in file, and the rest of the system
pub record Sshd (S : Type 0) : Type 0 where
  pub dropin : Option Text
  pub system : S

abbrev pub password_kept : VerifyCheck
password_kept = record {
  name = text "Password login kept";
  ok = true;
  detail = text "not recommended";
  hint = keep_hint;
}

-- `next((line for line in lines if ...), default)`
pub first_line : Text → List Text → Text → Text
first_line prefix [] default = default
first_line prefix (l ∷ ls) default =
    let rest = first_line prefix ls default in if starts_with l prefix then l else rest

-- the setting that sshd reports for the account
unfoldable pub setting_of : Unicode → CommandOutput → Text
unfolding first_line splitlines
setting_of u out =
    let shown = strip u.is_space out.stdout in
    first_line (setting_name ++ text " ") (splitlines out.stdout)
      (if is_empty shown then text "exit " ++ decimal out.returncode else shown)

pub login_off : Unicode → Text → CommandOutput → VerifyCheck
unfolding setting_of
login_off u account out = record {
  name = text "Password login off";
  ok = text_eq (setting_of u out) (setting_name ++ text " no");
  detail = setting_of u out;
  hint =
      text "sudo sshd -T -C user="
      ++ (account
          ++ text
              ",host=localhost,addr=127.0.0.1 | grep passwordauth; grep -ri passwordauth /etc/ssh/sshd_config /etc/ssh/sshd_config.d/");
}

-- `run` is the system's answer to a command.
module _ {S : Type 0} (u : Unicode) (run : List Text → S → CommandOutput × S) (account : Text) where
  -- the body of `apply` past its two guards
  unfoldable pub lock : Bool → Sshd S → List VerifyCheck × Sshd S
  unfolding login_off
  lock false sshd = (password_kept ∷ [], sshd)
  lock true sshd =
      let (_, s1) = run (text "systemctl" ∷ text "reload" ∷ text "ssh" ∷ []) sshd.system in
      let (out, s2) =
        run
          (text "sshd"
            ∷ text "-T"
            ∷ text "-C"
            ∷ (text "user=" ++ (account ++ text ",host=localhost,addr=127.0.0.1"))
            ∷ [])
          s1 in
      (login_off u account out ∷ [], record { dropin = some dropin_text; system = s2 })

  -- `apply`, by whether the two pages are done
  unfoldable pub apply_lockdown : Bool → Box (Sshd S) → Result PageError StepResult × Box (Sshd S)
  unfolding apply_page
  apply_lockdown disable box =
      let applied =
        apply_page (text "ssh_lockdown") (text "SSH lockdown is already done") (lock disable) box in
      if is_done (text "ssh_lockdown") box.markers
      then applied
      else if is_done (text "ssh") box.markers
      then applied
      else (err ssh_key_not_proven, box)

-- `WizardController.ssh_lockdown`: the status of each refusal
pub page_status : PageError → ℕ
page_status (step_already_done detail) = 404
page_status ssh_key_not_proven = 409
