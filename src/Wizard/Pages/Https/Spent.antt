-- ===== src/Wizard/Pages/Https/Spent.antt =====
-- That an installation of src/wizard/https_service.py uses the pending key up.
use platform_api.Prelude.{
  Keeps, Keeps->>, Keeps->>=, Keeps-if, Keeps-pure, List, Option-cases, Result, Text, Unicode, [],
  ap, change, err, follow, if◌then◌else◌, inl, inr, none, pure, refl, some, subst, sym, text, true,
  ℕ, ◌>>=◌, ◌>>◌, ◌∙◌, ◌∷◌, ◌≡◌,
}
use platform_api.Wizard.Machine.{Command, Halt, Machine, Step, child_path, plain, with_input}
use platform_api.Wizard.Pages.Keeping.{
  Keeps-run_for, Keeps-run_only, Keeps-wait_for_log, inspect_container, list_containers, read_logs,
}
use platform_api.Wizard.Pages.Https.Guard.{
  Keeps-first_checks, box_key, certificate_key, certificate_name,
}
use platform_api.Wizard.Pages.Https.{
  first_checks, https_work, install, install_in, read_file, reload_der_ingress, running, serve,
  serving_checks, start_front_end,
}
use platform_api.Wizard.Waiting.{compose_command}
use platform_api.Wizard.Steps.{VerifyCheck, all_ok}
use platform_api.Wizard.Pages.Certificates.{
  der_ingress_service, first_certificate, https_service, pending_host, pending_key,
}

-- The commands that the page runs.
pub data IsPageCommand (ems_dir : Text) : Command → Type 0 where
  reads_certificate : (leaf : Text) → IsPageCommand ems_dir (certificate_key leaf)
  reads_box_key : IsPageCommand ems_dir (box_key ems_dir)
  asks_name : (leaf host : Text) → IsPageCommand ems_dir (certificate_name leaf host)
  fetches_config : IsPageCommand ems_dir (
      plain (
        text "curl"
        ∷ text "-fsSL"
        ∷ text "https://arcnode-public.s3.us-east-1.amazonaws.com/compose/https-ingress.conf"
        ∷ text "-o"
        ∷ child_path ems_dir (text "https-ingress.conf")
        ∷ []))
  starts_front_end : IsPageCommand ems_dir (
      compose_command ems_dir
        (text "up" ∷ text "-d" ∷ text "--force-recreate" ∷ https_service ∷ []))
  reads_logs : IsPageCommand ems_dir (read_logs ems_dir https_service)
  lists_containers : IsPageCommand ems_dir (list_containers ems_dir https_service)
  inspects_container : (container : Text) → IsPageCommand ems_dir (inspect_container container)
  lists_running :
      (service : Text)
      → IsPageCommand ems_dir (
          compose_command ems_dir
            (text "ps" ∷ text "-q" ∷ text "--status" ∷ text "running" ∷ service ∷ []))
  reloads_ingress : IsPageCommand ems_dir (
      compose_command ems_dir
        (text "exec" ∷ der_ingress_service ∷ text "nginx" ∷ text "-s" ∷ text "reload" ∷ []))
  connects :
      (host : Text)
      → IsPageCommand ems_dir (
          with_input
            (text "openssl"
              ∷ text "s_client"
              ∷ text "-connect"
              ∷ text "127.0.0.1:443"
              ∷ text "-servername"
              ∷ host
              ∷ [])
            [])

module _ {S : Type 0} (u : Unicode) (m : Machine S) (fuel : ℕ) (ems_dir : Text)
    (quiet : (c : Command) (s : S)
      → IsPageCommand ems_dir c
      → m.read_text (pending_key ems_dir) s ≡ none
      → m.read_text (pending_key ems_dir) (m.run c s).1 ≡ none)
    (asleep : (s : S)
      → m.read_text (pending_key ems_dir) s ≡ none
      → m.read_text (pending_key ems_dir) (m.sleep s) ≡ none) where
  -- There is no pending key.
  abbrev pub NoKey : S → Type 0
  NoKey s = m.read_text (pending_key ems_dir) s ≡ none

  Keeps-running : (service : Text) → Keeps NoKey (running u m fuel ems_dir service)
  unfolding running
  Keeps-running service =
      Keeps->>= NoKey _ _ (Keeps-run_for u m NoKey _ (λ s. quiet _ s (lists_running service)))
        (λ out. Keeps-pure NoKey _)

  Keeps-reload : Keeps NoKey (reload_der_ingress u m fuel ems_dir)
  unfolding reload_der_ingress
  Keeps-reload = Keeps->>= NoKey _ _ (Keeps-running _) (λ up.
      Keeps-if NoKey up _ _ (Keeps-run_only u m NoKey _ (λ s. quiet _ s reloads_ingress))
        (Keeps-pure NoKey _))

  Keeps-start_front_end : Keeps NoKey (start_front_end u m fuel ems_dir)
  unfolding start_front_end
  Keeps-start_front_end =
      Keeps->> NoKey _ _ (Keeps-run_only u m NoKey _ (λ s. quiet _ s fetches_config)) (
        Keeps->> NoKey _ _ (Keeps-run_only u m NoKey _ (λ s. quiet _ s starts_front_end)) (
          Keeps->>= NoKey _ _
            (Keeps-wait_for_log u m NoKey ems_dir https_service _ fuel (λ s. quiet _ s reads_logs)
              (λ s. quiet _ s lists_containers)
              (λ container s. quiet _ s (inspects_container container)) asleep)
            (λ r. Keeps-reload)))

  Keeps-serving_checks :
      (leaf host : Text) → Keeps NoKey (serving_checks u m fuel ems_dir leaf host)
  unfolding serving_checks
  Keeps-serving_checks leaf host = Keeps->>= NoKey _ _ (Keeps-running _) (λ up.
      Keeps->>= NoKey _ _ (Keeps-run_for u m NoKey _ (λ s. quiet _ s (connects host)))
        (λ out. Keeps-pure NoKey _))

  -- The two first checks make no pending key.
  pub Keeps-checks : (leaf host : Text) → Keeps NoKey (first_checks u m fuel ems_dir leaf host)
  Keeps-checks leaf host =
      Keeps-first_checks u m fuel ems_dir NoKey
        (λ leaf host s h. (
          quiet _ s (reads_certificate leaf) h,
          quiet _ s reads_box_key h,
          quiet _ s (asks_name leaf host) h,
        ))
        leaf host

  -- An installation that comes to an end has used the pending key up.
  install-key :
      (chain : Text) (s : S)
      → (install u m fuel ems_dir chain s).0 ≡ Result.ok tt
      → NoKey (install u m fuel ems_dir chain s).1
  unfolding install install_in read_file change ◌>>=◌ ◌>>◌
  install-key chain s h = elim (Option-cases (m.read_text (pending_key ems_dir) s)) [
    | inl e ↦ rw e e
    | inr (key, e) ↦ rw e (m.read-unlink (pending_key ems_dir) _)
  ]

  after_install :
      {A : Type 0} (r : Result Halt (Unit {0}) × S) (rest : Step S A) (a : A)
      → (r.0 ≡ Result.ok tt → NoKey r.1)
      → Keeps NoKey rest
      → (follow r (λ _. rest)).0 ≡ Result.ok a
      → NoKey (follow r (λ _. rest)).1
  after_install (Result.ok x, s) rest a h k e = k.kept s (h refl)
  after_install (err x, s) rest a h k e = absurd cc

  serve-key :
      (chain leaf host : Text) (checks answered : List VerifyCheck) (s : S)
      → (serve u m fuel ems_dir chain leaf host checks s).0 ≡ Result.ok answered
      → NoKey (serve u m fuel ems_dir chain leaf host checks s).1
  unfolding serve ◌>>◌
  serve-key chain leaf host checks answered s h =
      after_install (install u m fuel ems_dir chain s) _ answered (install-key chain s)
        (Keeps->> NoKey _ _ Keeps-start_front_end
          (Keeps->>= NoKey _ _ (Keeps-serving_checks leaf host) (λ more. Keeps-pure NoKey _)))
        h

  came_as :
      (found checks : List VerifyCheck)
      → ◌≡◌ {A = Result Halt (List VerifyCheck)} (Result.ok found) (Result.ok checks)
      → found ≡ checks
  came_as found checks e = cc

  after_checks :
      (chain leaf host : Text) (r : Result Halt (List VerifyCheck) × S)
      (checks answered : List VerifyCheck)
      → r.0 ≡ Result.ok checks
      → all_ok checks ≡ true
      → (follow r (λ found.
          if all_ok found then serve u m fuel ems_dir chain leaf host found else pure found)).0
        ≡ Result.ok answered
      → NoKey
          (follow r (λ found.
            if all_ok found then serve u m fuel ems_dir chain leaf host found else pure found)).1
  after_checks chain leaf host (Result.ok found, s) checks answered e passed h =
      let both = ap all_ok (came_as found checks e) ∙ passed in
      rw both (
        serve-key chain leaf host found answered s (
          subst
            (λ b.
              ((if b then serve u m fuel ems_dir chain leaf host found else pure found) s).0
              ≡ Result.ok answered)
            both h))
  after_checks chain leaf host (err x, s) checks answered e passed h = absurd cc

  -- The two first checks passed.
  abbrev pub Passed : Text → S → Type 0
  Passed chain s =
      (host : Text) × (checks : List VerifyCheck) × (m.read_text (pending_host ems_dir) s
        ≡ some host)
      × ((first_checks u m fuel ems_dir (first_certificate u chain) host s).0 ≡ Result.ok checks)
      × (all_ok checks ≡ true)

  pub https_work-named :
      (chain host : Text) (s : S)
      → m.read_text (pending_host ems_dir) s ≡ some host
      → https_work u m fuel ems_dir chain s
        ≡ follow (first_checks u m fuel ems_dir (first_certificate u chain) host s) (λ found.
          if all_ok found
          then serve u m fuel ems_dir chain (first_certificate u chain) host found
          else pure found)
  unfolding https_work read_file ◌>>=◌
  https_work-named chain host s there = rw there refl

  pub work-key :
      (chain : Text) (answered : List VerifyCheck) (s : S)
      → Passed chain s
      → (https_work u m fuel ems_dir chain s).0 ≡ Result.ok answered
      → NoKey (https_work u m fuel ems_dir chain s).1
  work-key chain answered s (host, checks, there, came, passed) h =
      subst (λ r. r.0 ≡ Result.ok answered → NoKey r.1) (sym (https_work-named chain host s there))
        (after_checks chain (first_certificate u chain) host
          (first_checks u m fuel ems_dir (first_certificate u chain) host s) checks answered came
          passed)
        h
