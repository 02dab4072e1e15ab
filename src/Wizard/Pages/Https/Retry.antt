-- ===== src/Wizard/Pages/Https/Retry.antt =====
-- The certificate page of src/wizard/https_service.py after its installation used the pending key up.
use platform_api.Prelude.{
  Bool-cases, List, Option-cases, Result, Text, Unicode, [], ap, err, false, follow, inl, inr, none,
  refl, subst, sym, text, ℕ, ◌==◌, ◌>>=◌, ◌∷◌, ◌≡◌,
}
use platform_api.Wizard.Steps.{Box, StepResult, is_done}
use platform_api.Wizard.Machine.{Command, Halt, Machine, Step, crashed}
use platform_api.Wizard.Pages.Marking.{page-raises, page-raises_box, page-unverified, passed}
use platform_api.Wizard.Pages.Https.{
  apply_https, first_checks, https_work, match, openssl, read_file,
}
use platform_api.Wizard.Pages.Https.Spent.{
  IsPageCommand, Keeps-checks, NoKey, Passed, https_work-named, reads_certificate, work-key,
}
use platform_api.Wizard.Pages.Https.Guard.{box_key, certificate_key}
use platform_api.Wizard.Pages.Certificates.{first_certificate, pending_host, pending_key}

-- `quiet` and `asleep`: no command of the page, and no sleep, makes a pending key. `missing`: openssl
-- fails to read a key that is not there.
module _ {S : Type 0} (u : Unicode) (m : Machine S) (fuel : ℕ) (ems_dir : Text)
    (quiet : (c : Command) (s : S)
      → IsPageCommand ems_dir c
      → m.read_text (pending_key ems_dir) s ≡ none
      → m.read_text (pending_key ems_dir) (m.run c s).1 ≡ none)
    (asleep : (s : S)
      → m.read_text (pending_key ems_dir) s ≡ none
      → m.read_text (pending_key ems_dir) (m.sleep s) ≡ none)
    (missing : (s : S)
      → m.read_text (pending_key ems_dir) s ≡ none
      → ((m.run (box_key ems_dir) s).0.returncode == 0) ≡ false) where
  -- a step that raises
  abbrev Crashes : {A : Type 0} → Result Halt A × S → Type 0
  Crashes r = (reason : Text) × (r.0 ≡ err (crashed reason))

  follow-Crashes :
      {A B : Type 0} (r : Result Halt A × S) (f : A → Step S B) → Crashes r → Crashes (follow r f)
  follow-Crashes (Result.ok a, s) f (reason, e) = absurd cc
  follow-Crashes (err x, s) f (reason, e) = (reason, ap err (raised_as x reason e))
    where
      raised_as :
          {A : Type 0} (x : Halt) (reason : Text)
          → ◌≡◌ {A = Result Halt A} (err x) (err (crashed reason))
          → x ≡ crashed reason
      raised_as x reason e = cc

  match-Crashes :
      (leaf : Text) (s : S)
      → NoKey u m fuel ems_dir quiet asleep s
      → Crashes (match u m fuel ems_dir leaf s)
  unfolding match openssl ◌>>=◌
  match-Crashes leaf s h =
      let c = certificate_key leaf in
      elim (Bool-cases ((m.run c s).0.returncode == 0)) [
        | inl e ↦ rw (e, missing (m.run c s).1 (quiet c s (reads_certificate leaf) h)) (_, refl)
        | inr e ↦ rw e (_, refl)
      ]

  -- Work that raises, and leaves no pending key.
  abbrev CrashesSpent : {A : Type 0} → Result Halt A × S → Type 0
  CrashesSpent r = Crashes r × NoKey u m fuel ems_dir quiet asleep r.1

  crashed-state :
      {A B : Type 0} (P : S → Type 0) (r : Result Halt A × S) (f : A → Step S B)
      → Crashes r
      → P r.1
      → P (follow r f).1
  crashed-state P (Result.ok a, s) f (reason, e) h = let no : ⊥ = cc in absurd no
  crashed-state P (err x, s) f c h = h

  first_checks-Crashes :
      (leaf host : Text) (s : S)
      → NoKey u m fuel ems_dir quiet asleep s
      → Crashes (first_checks u m fuel ems_dir leaf host s)
  unfolding first_checks ◌>>=◌
  first_checks-Crashes leaf host s h =
      follow-Crashes (match u m fuel ems_dir leaf s) _ (match-Crashes leaf s h)

  https_work-CrashesSpent :
      (chain : Text) (s : S)
      → NoKey u m fuel ems_dir quiet asleep s
      → CrashesSpent (https_work u m fuel ems_dir chain s)
  unfolding https_work read_file ◌>>=◌
  https_work-CrashesSpent chain s h = elim (Option-cases (m.read_text (pending_host ems_dir) s)) [
    | inl e ↦ rw e ((_, refl), h)
    | inr (host, e) ↦
        let leaf = first_certificate u chain in
        let checks = first_checks u m fuel ems_dir leaf host s in
        let crash = first_checks-Crashes leaf host s h in
        subst CrashesSpent (sym (https_work-named u m fuel ems_dir quiet asleep chain host s e)) (
          follow-Crashes checks _ crash,
          crashed-state (NoKey u m fuel ems_dir quiet asleep) checks _ crash
              ((Keeps-checks u m fuel ems_dir quiet asleep leaf host).kept s h),
        )
  ]

  -- The page is not done, and there is no pending key.
  abbrev IsSpent : Box S → Type 0
  IsSpent box =
      (is_done (text "https") box.markers ≡ false) × NoKey u m fuel ems_dir quiet asleep box.system

  apply_https-IsSpent :
      (chain : Text) (box : Box S)
      → IsSpent box
      → ((reason : Text) × ((apply_https u m fuel ems_dir chain box).0 ≡ err (crashed reason)))
        × IsSpent (apply_https u m fuel ems_dir chain box).1
  unfolding apply_https
  apply_https-IsSpent chain box (d, h) =
      let work = https_work u m fuel ems_dir chain in
      let ((reason, e), spent) = https_work-CrashesSpent chain box.system h in
      let name = text "https" in
      let already = text "HTTPS is already set up" in
      (
        (reason, page-raises name already work box (crashed reason) d e),
        subst IsSpent (sym (page-raises_box name already work box (crashed reason) d e)) (d, spent),
      )

  unverified-IsSpent :
      (chain : Text) (box : Box S) (result : StepResult)
      → Passed u m fuel ems_dir quiet asleep chain box.system
      → (apply_https u m fuel ems_dir chain box).0 ≡ Result.ok result
      → result.verified ≡ false
      → IsSpent (apply_https u m fuel ems_dir chain box).1
  unfolding apply_https
  unverified-IsSpent chain box result passed e v =
      let (d, (checks, came), left) =
        page-unverified (text "https") (text "HTTPS is already set up")
          (https_work u m fuel ems_dir chain) box result e v in
      subst IsSpent (sym left)
        (d, work-key u m fuel ems_dir quiet asleep chain checks box.system passed came)

  -- the box after runs of the page with these chains, one after the other
  pub runs : List Text → Box S → Box S
  runs [] box = box
  runs (chain ∷ chains) box = runs chains (apply_https u m fuel ems_dir chain box).1

  runs-IsSpent : (chains : List Text) (box : Box S) → IsSpent box → IsSpent (runs chains box)
  unfolding runs
  runs-IsSpent [] box h = h
  runs-IsSpent (chain ∷ chains) box h =
      runs-IsSpent chains (apply_https u m fuel ems_dir chain box).1
        (apply_https-IsSpent chain box h).1

  -- Where the page came back unverified although both first checks had passed, so after the installation,
  -- the page raises however often it is run again, with whatever chains: it needs the pending key that
  -- the installation removed. It is a premise that none of the page's own commands makes that key.
  pub apply_https-retry :
      (chain again : Text) (others : List Text) (box : Box S) (result : StepResult)
      → Passed u m fuel ems_dir quiet asleep chain box.system
      → (apply_https u m fuel ems_dir chain box).0 ≡ Result.ok result
      → result.verified ≡ false
      → (reason : Text) × ((apply_https u m fuel ems_dir again
            (runs others (apply_https u m fuel ems_dir chain box).1)).0
          ≡ err (crashed reason))
  apply_https-retry chain again others box result passed e v =
      (apply_https-IsSpent again (runs others (apply_https u m fuel ems_dir chain box).1) (
        runs-IsSpent others (apply_https u m fuel ems_dir chain box).1
          (unverified-IsSpent chain box result passed e v))).0
