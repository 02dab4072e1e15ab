-- ===== src/Wizard/Pages/Https/Guard.antt =====
-- What src/wizard/https_service.py asks before it changes a file.
use platform_api.Prelude.{
  Bool, Bool-cases, Keeps, Keeps->>=, Keeps-pure, List, Option-cases, Result, Text, Unicode, [],
  answer, ap, err, false, follow, has_infix, if◌then◌else◌, inl, inr, none, pure, refl, some, sym,
  text, text_eq, text_eq_iff, true, ℕ, ◌&&◌, ◌==◌, ◌>>=◌, ◌∙◌, ◌∷◌, ◌≡◌, ◌⊎◌,
}
use platform_api.Wizard.Steps.{Box, Markers, VerifyCheck, all_ok, conclude, is_done}
use platform_api.Wizard.Machine.{Command, Halt, Machine, crashed}
use platform_api.Wizard.Pages.Keeping.{Keeps-run_for}
use platform_api.Wizard.Pages.Https.{
  apply_https, first_checks, https_work, match, named, openssl, read_file, serve,
}
use platform_api.Wizard.Pages.{finish, page, run_for}
use platform_api.Wizard.Pages.Certificates.{
  first_certificate, match_check, name_check, pending_host, pending_key,
}

-- the call that reads a certificate's key
abbrev pub certificate_key : Text → Command
certificate_key leaf = record {
  args = text "openssl" ∷ text "x509" ∷ text "-noout" ∷ text "-pubkey" ∷ [];
  input = some leaf;
  env = [];
}

-- the call that reads the box's key
abbrev pub box_key : Text → Command
box_key ems_dir = record {
  args = text "openssl" ∷ text "pkey" ∷ text "-pubout" ∷ text "-in" ∷ pending_key ems_dir ∷ [];
  input = none;
  env = [];
}

-- the call that asks whether a certificate is for a name
abbrev pub certificate_name : Text → Text → Command
certificate_name leaf host = record {
  args = text "openssl" ∷ text "x509" ∷ text "-noout" ∷ text "-checkhost" ∷ host ∷ [];
  input = some leaf;
  env = [];
}

module _ {S : Type 0} (u : Unicode) (m : Machine S) (fuel : ℕ) (ems_dir : Text) where
  -- The three calls that only read keep a predicate.
  abbrev pub ReadsKeep : (S → Type 0) → Type 0
  ReadsKeep P =
      (leaf host : Text) (s : S)
      → P s
      → P (m.run (certificate_key leaf) s).1
        × P (m.run (box_key ems_dir) s).1
        × P (m.run (certificate_name leaf host) s).1

  -- The two first checks keep what their three calls keep.
  pub Keeps-first_checks :
      (P : S → Type 0)
      → ReadsKeep P
      → (leaf host : Text) → Keeps P (first_checks u m fuel ems_dir leaf host)
  unfolding first_checks match named openssl
  Keeps-first_checks P quiet leaf host =
      Keeps->>= P _ _
        (Keeps->>= P _ _ (record { kept = λ s h. (quiet leaf host s h).0 })
          (λ a.
            Keeps->>= P _ _ (record { kept = λ s h. (quiet leaf host s h).1 })
              (λ b. Keeps-pure P _)))
        (λ c.
          Keeps->>= P _ _
            (Keeps->>= P _ _ (Keeps-run_for u m P _ (λ s h. (quiet leaf host s h).2))
              (λ o. Keeps-pure P _))
            (λ d. Keeps-pure P _))

  -- A name had been asked for; the keys of the certificate and of the box were read, and are the same; and
  -- openssl says that the certificate is for the name.
  abbrev pub IsSigned : Text → S → Type 0
  IsSigned chain s =
      let leaf = first_certificate u chain in
      (host : Text) × (m.read_text (pending_host ems_dir) s ≡ some host)
      × (let (cert, s1) = m.run (certificate_key leaf) s in
          let (own, s2) = m.run (box_key ems_dir) s1 in
          let (answer, s3) = m.run (certificate_name leaf host) s2 in
          ((cert.returncode == 0) ≡ true)
          × ((own.returncode == 0) ≡ true)
          × (cert.stdout ≡ own.stdout)
          × (has_infix answer.stdout (text "does match") ≡ true))

  both_ok :
      (a b : Bool) (x y : Halt) (found checks : List VerifyCheck)
      → (if a then (if b then Result.ok found else err x) else err y) ≡ Result.ok checks
      → (a ≡ true) × (b ≡ true) × (found ≡ checks)
  both_ok true true x y found checks h = (refl, refl, cc)
  both_ok true false x y found checks h = let no : ⊥ = cc in absurd no
  both_ok false b x y found checks h = let no : ⊥ = cc in absurd no

  first_checks-eq :
      (leaf host : Text) (s : S)
      → (let (cert, s1) = m.run (certificate_key leaf) s in
          let (own, s2) = m.run (box_key ems_dir) s1 in
          let (answer, s3) = m.run (certificate_name leaf host) s2 in
          (first_checks u m fuel ems_dir leaf host s).0 ≡ (
            if cert.returncode == 0
            then (if own.returncode == 0
                then Result.ok (
                    match_check (text_eq cert.stdout own.stdout)
                    ∷ name_check u host answer.stdout
                    ∷ [])
                else err (crashed (text "openssl failed")))
            else err (crashed (text "openssl failed"))))
  unfolding first_checks match named openssl run_for answer ◌>>=◌ pure
  first_checks-eq leaf host s =
      let (cert, s1) = m.run (certificate_key leaf) s in
      elim (Bool-cases (cert.returncode == 0)) [
        | inr e ↦ rw e refl
        | inl e ↦ elim (Bool-cases ((m.run (box_key ems_dir) s1).0.returncode == 0)) [
          | inl k ↦ rw (e, k) refl
          | inr k ↦ rw (e, k) refl
        ]
      ]

  and-parts : (a b : Bool) → (a && b) ≡ true → (a ≡ true) × (b ≡ true)
  and-parts true b h = (refl, h)
  and-parts false b h = let no : ⊥ = cc in absurd no

  first_checks-IsSigned :
      (chain host : Text) (s : S) (checks : List VerifyCheck)
      → m.read_text (pending_host ems_dir) s ≡ some host
      → (first_checks u m fuel ems_dir (first_certificate u chain) host s).0 ≡ Result.ok checks
      → all_ok checks ≡ true
      → IsSigned chain s
  first_checks-IsSigned chain host s checks there h passed =
      let (cert, own, same) =
        both_ok _ _ _ _ _ checks (sym (first_checks-eq (first_certificate u chain) host s) ∙ h) in
      let (keys, rest) = and-parts _ _ (ap all_ok same ∙ passed) in
      (host, there, (cert, own, (text_eq_iff _ _).0 keys, (and-parts _ _ rest).0))

  only_if_passed :
      (P : S → Type 0) (chain leaf host : Text) (r : Result Halt (List VerifyCheck) × S)
      → P r.1
      → P
          (follow r (λ checks.
            if all_ok checks then serve u m fuel ems_dir chain leaf host checks else pure checks)).1
        ⊎ ((checks : List VerifyCheck) × (r.0 ≡ Result.ok checks) × (all_ok checks ≡ true))
  unfolding pure
  only_if_passed P chain leaf host (Result.ok checks, s) h = elim (Bool-cases (all_ok checks)) [
    | inl e ↦ inr (checks, refl, e)
    | inr e ↦ inl (rw e h)
  ]
  only_if_passed P chain leaf host (err e, s) h = inl h

  module _ (path : Text)
      (quiet : (leaf host : Text) (s : S)
        → (m.read_text path (m.run (certificate_key leaf) s).1 ≡ m.read_text path s)
          × (m.read_text path (m.run (box_key ems_dir) s).1 ≡ m.read_text path s)
          × (m.read_text path (m.run (certificate_name leaf host) s).1 ≡ m.read_text path s)) where
    -- the text of the path in a box
    abbrev SameAs : S → S → Type 0
    SameAs s t = m.read_text path t ≡ m.read_text path s

    ReadsKeep-SameAs : (s : S) → ReadsKeep (SameAs s)
    ReadsKeep-SameAs s leaf host t h = let (a, b, c) = quiet leaf host t in (a ∙ h, b ∙ h, c ∙ h)

    work-guarded :
        (chain : Text) (s : S) → SameAs s (https_work u m fuel ems_dir chain s).1 ⊎ IsSigned chain s
    unfolding https_work read_file ◌>>=◌
    work-guarded chain s = elim (Option-cases (m.read_text (pending_host ems_dir) s)) [
      | inl e ↦ inl (rw e refl)
      | inr (host, e) ↦
          elim (only_if_passed (SameAs s) chain (first_certificate u chain) host
            (first_checks u m fuel ems_dir (first_certificate u chain) host s)
            ((Keeps-first_checks (SameAs s) (ReadsKeep-SameAs s) (first_certificate u chain)
                host).kept
              s refl)) [
                | inl k ↦ inl (rw e k)
                | inr (checks, q, passed) ↦
                    inr (first_checks-IsSigned chain host s checks e q passed)
              ]
    ]

    finish-system :
        (markers : Markers) (r : Result Halt (List VerifyCheck) × S)
        → (finish (text "https") markers r).1.system ≡ r.1
    unfolding conclude
    finish-system markers (Result.ok checks, s) = refl
    finish-system markers (err e, s) = refl

    -- A file that openssl's three readings leave alone is as it was after the certificate page, unless the
    -- page was not done and a name had been asked for, openssl read the key of the chain's first
    -- certificate and the box's own and they are the same, and it says that the certificate is for
    -- that name.
    pub apply_https-guarded :
        (chain : Text) (box : Box S)
        → (m.read_text path (apply_https u m fuel ems_dir chain box).1.system
            ≡ m.read_text path box.system)
          ⊎ ((is_done (text "https") box.markers ≡ false) × IsSigned chain box.system)
    unfolding apply_https page
    apply_https-guarded chain box = elim (Bool-cases (is_done (text "https") box.markers)) [
      | inl e ↦ inl (rw e refl)
      | inr e ↦ elim (work-guarded chain box.system) [
        | inl k ↦ inl (
            rw e (
              ap (m.read_text path)
                (finish-system box.markers (https_work u m fuel ems_dir chain box.system))
              ∙ k))
        | inr k ↦ inr (e, k)
      ]
    ]
