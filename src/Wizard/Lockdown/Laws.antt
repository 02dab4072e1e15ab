-- ===== src/Wizard/Lockdown/Laws.antt =====
-- When src/wizard/ssh_lockdown_service.py turns passwords off.
use platform_api.Prelude.{
  Bool, Bool-cases, List, Text, Unicode, false, inl, inr, refl, some, text, true, ◌≡◌, ◌⊎◌,
}
use platform_api.Wizard.Steps.{Box, CommandOutput, apply_page, conclude, is_done}
use platform_api.Wizard.Lockdown.{Sshd, apply_lockdown, dropin_text, lock}

-- The file is written only where the key page is done, the lockdown page is not, and the person asked
-- for it; anything else leaves it as it was.
pub apply_lockdown-keeps :
    {S : Type 0} (u : Unicode) (run : List Text → S → CommandOutput × S) (account : Text)
    (disable : Bool) (box : Box (Sshd S))
    → ((apply_lockdown u run account disable box).1.system.dropin ≡ box.system.dropin)
      ⊎ ((disable ≡ true)
          × (is_done (text "ssh") box.markers ≡ true)
          × (is_done (text "ssh_lockdown") box.markers ≡ false)
          × ((apply_lockdown u run account disable box).1.system.dropin ≡ some dropin_text))
unfolding apply_lockdown apply_page conclude
apply_lockdown-keeps u run account disable box =
    elim (Bool-cases (is_done (text "ssh_lockdown") box.markers)) [
      | inl e ↦ inl (rw e refl)
      | inr e ↦ elim (Bool-cases (is_done (text "ssh") box.markers)) [
        | inr k ↦ inl (rw (e, k) refl)
        | inl k ↦ rw (e, k) (asked disable)
      ]
    ]
  where
    asked :
        (d : Bool)
        → ((lock u run account d box.system).1.dropin ≡ box.system.dropin)
          ⊎ ((d ≡ true)
              × (true ≡ true)
              × (false ≡ false)
              × ((lock u run account d box.system).1.dropin ≡ some dropin_text))
    asked true = inr (refl, refl, refl, unfold lock in refl)
    asked false = inl (unfold lock in refl)
