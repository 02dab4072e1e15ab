-- ===== src/Wizard/Pages/DerControl/Identity.antt =====
use platform_api.Prelude.{
  All, Bool, Bool-cases, Distinct, List, Option, Result, Text, Unicode, [], ap, arith, change,
  contains, false, follow, if◌then◌else◌, inl, inr, is_empty, map, none, pure, refl, some, text,
  text_eq, text_eq-prefix, ℕ, ◌>>◌, ◌||◌, ◌∙◌, ◌∷◌, ◌≡◌,
}
use platform_api.Wizard.Machine.{Machine, child_path}
use platform_api.Wizard.Pages.DerControl.{
  identity_files, place_file, place_files, write_utility_identity,
}
use platform_api.Wizard.Inputs.{DerControlRequest}
use platform_api.Wizard.Pages.DerRows.{DerLibrary}

-- The utility's identity on the page of src/wizard/der_control_service.py.

or_left : (a b : Bool) → (a || b) ≡ false → a ≡ false
or_left a b h = ground arith

or_right : (a b : Bool) → (a || b) ≡ false → b ≡ false
or_right a b h = ground arith

module _ {S : Type 0} (u : Unicode) (m : Machine S) (library : DerLibrary) (fuel : ℕ)
    (ems_dir : Text) where
  -- what a file holds after it was placed
  abbrev pub placed_content : Text → Option Text
  placed_content content = if is_empty content then none else some content

  placed_reads :
      (name content : Text) (mode : ℕ) (s : S)
      → (t : S) × (place_file u m library fuel ems_dir (name, (content, mode)) s
          ≡ (Result.ok tt, t))
        × (m.read_text (child_path ems_dir name) t ≡ placed_content content)
        × ((path : Text)
            → text_eq (child_path ems_dir name) path ≡ false
            → m.read_text path t ≡ m.read_text path s)
  unfolding place_file change ◌>>◌
  placed_reads name content mode s = elim (Bool-cases (is_empty content)) [
    | inl e ↦ rw e (
      _,
      refl,
      m.read-unlink (child_path ems_dir name) s,
      λ path apart. m.read-unlink_other (child_path ems_dir name) path s apart,
    )
    | inr e ↦ rw e (
      _,
      refl,
      m.read-write (child_path ems_dir name) content _,
      λ path apart.
          m.read-write_other (child_path ems_dir name) path content _ apart
          ∙ (m.read-chmod (child_path ems_dir name) path mode _
              ∙ m.read-touch_other (child_path ems_dir name) path mode s apart),
    )
  ]

  abbrev pub names_of_files : List (Text × (Text × ℕ)) → List Text
  names_of_files files = map (λ (f : Text × (Text × ℕ)). f.0) files

  abbrev AsPlaced : S → Text × (Text × ℕ) → Type 0
  AsPlaced t (name, (content, mode)) =
      m.read_text (child_path ems_dir name) t ≡ placed_content content

  place_files-reads :
      (files : List (Text × (Text × ℕ))) (s : S)
      → Distinct (names_of_files files)
      → (t : S) × (place_files u m library fuel ems_dir files s ≡ (Result.ok tt, t))
        × All (AsPlaced t) files
        × ((name : Text)
            → contains name (names_of_files files) ≡ false
            → m.read_text (child_path ems_dir name) t ≡ m.read_text (child_path ems_dir name) s)
  unfolding place_files pure ◌>>◌
  place_files-reads [] s d = (s, refl, tt, λ name h. refl)
  place_files-reads ((name, (content, mode)) ∷ files) s (fresh, d) =
      let (s1, placed, there, others) = placed_reads name content mode s in
      let (t, rest, all_placed, kept) = place_files-reads files s1 d in
      (
        t,
        ap (λ r. follow r (λ _. place_files u m library fuel ems_dir files)) placed ∙ rest,
        (kept name fresh ∙ there, all_placed),
        λ other h.
            kept other (or_right _ _ h)
            ∙ others (child_path ems_dir other)
                (text_eq-prefix ems_dir (b'/' ∷ name) (b'/' ∷ other) ∙ or_left _ _ h),
      )

  -- Writing the utility's identity comes to an end, and leaves of its three files exactly those that the
  -- request has a text for, with that text: an earlier file of an identity that is no longer given is
  -- gone. Every other file of the directory is as it was.
  pub write_utility_identity-files :
      (request : DerControlRequest) (s : S)
      → (t : S) × (write_utility_identity u m library fuel ems_dir request s ≡ (Result.ok tt, t))
        × (m.read_text (child_path ems_dir (text "der-control-client.pem")) t
            ≡ placed_content request.device_cert_pem)
        × (m.read_text (child_path ems_dir (text "der-control-client-key.pem")) t
            ≡ placed_content request.device_key_pem)
        × (m.read_text (child_path ems_dir (text "der-control-utility-ca.pem")) t
            ≡ placed_content request.utility_ca_pem)
        × ((name : Text)
            → contains name (names_of_files (identity_files u m library fuel ems_dir request))
              ≡ false
            → m.read_text (child_path ems_dir name) t ≡ m.read_text (child_path ems_dir name) s)
  unfolding write_utility_identity
  write_utility_identity-files request s =
      let (t, ended, (cert, (key, (ca, _))), kept) =
        place_files-reads (identity_files u m library fuel ems_dir request) s
          (refl, (refl, (refl, tt))) in
      (t, ended, cert, key, ca, kept)
