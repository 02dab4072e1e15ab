-- ===== src/Wizard/Pages/Https/Install.antt =====
-- The files that `_install` of src/wizard/https_service.py leaves.
use platform_api.Prelude.{
  Result, String, Text, Unicode, append_assoc, change, false, none, refl, some, text, text_eq,
  text_eq-prefix, ℕ, ◌++◌, ◌>>=◌, ◌>>◌, ◌∙◌, ◌∷◌, ◌≡◌,
}
use platform_api.Wizard.Machine.{Machine, child_path}
use platform_api.Wizard.Pages.Https.{install, install_in, read_file}
use platform_api.Wizard.Pages.Certificates.{der_tls, pending_key, tls}

-- Two paths in subdirectories of one directory are apart where their rests are.
child_path-apart :
    (ems_dir a b x y : Text)
    → text_eq (a ++ b'/' ∷ x) (b ++ b'/' ∷ y) ≡ false
    → text_eq (child_path (child_path ems_dir a) x) (child_path (child_path ems_dir b) y) ≡ false
child_path-apart ems_dir a b x y h =
    rw
      (
        append_assoc ems_dir (b'/' ∷ a) (b'/' ∷ x),
        append_assoc ems_dir (b'/' ∷ b) (b'/' ∷ y),
        text_eq-prefix ems_dir (b'/' ∷ (a ++ b'/' ∷ x)) (b'/' ∷ (b ++ b'/' ∷ y)),
      )
      h

module _ {S : Type 0} (u : Unicode) (m : Machine S) (fuel : ℕ) (ems_dir : Text) where
  -- the box after one round of the loop
  abbrev placed : Text → Text → Text → Text → Text → S → S
  placed directory cert key_path chain key s =
      m.write_text key_path key (
        m.chmod key_path 384 (m.touch key_path 384 (m.write_text cert chain (m.mkdir directory s))))

  -- a reading that the writing of two other files leaves
  written_past :
      (directory cert key_path q chain key : Text) (s : S)
      → text_eq cert q ≡ false
      → text_eq key_path q ≡ false
      → m.read_text q (placed directory cert key_path chain key s) ≡ m.read_text q s
  written_past directory cert key_path q chain key s c k =
      m.read-write_other key_path q key _ k
      ∙ (m.read-chmod key_path q 384 _
          ∙ (m.read-touch_other key_path q 384 _ k
              ∙ (m.read-write_other cert q chain _ c ∙ m.read-mkdir directory q s)))

  -- the certificate, which the key's writing leaves
  cert_written :
      (directory cert key_path chain key : Text) (s : S)
      → text_eq key_path cert ≡ false
      → m.read_text cert (placed directory cert key_path chain key s) ≡ some chain
  cert_written directory cert key_path chain key s k =
      m.read-write_other key_path cert key _ k
      ∙ (m.read-chmod key_path cert 384 _
          ∙ (m.read-touch_other key_path cert 384 _ k
              ∙ m.read-write cert chain (m.mkdir directory s)))

  abbrev first_dir : Text
  first_dir = child_path ems_dir (text "tls")

  abbrev second_dir : Text
  second_dir = child_path ems_dir (text "der-control-tls")

  abbrev front : String → Text
  front name = tls ems_dir (text name)

  abbrev back : String → Text
  back name = der_tls ems_dir (text name)

  -- Where the pending key is there, the installation comes to an end: both directories then hold the
  -- chain and the key, and the pending key is gone.
  pub install-installs :
      (chain key : Text) (s : S)
      → m.read_text (pending_key ems_dir) s ≡ some key
      → (t : S) × (install u m fuel ems_dir chain s ≡ (Result.ok tt, t))
        × (m.read_text (tls ems_dir (text "server.pem")) t ≡ some chain)
        × (m.read_text (tls ems_dir (text "server-key.pem")) t ≡ some key)
        × (m.read_text (der_tls ems_dir (text "cert.pem")) t ≡ some chain)
        × (m.read_text (der_tls ems_dir (text "key.pem")) t ≡ some key)
        × (m.read_text (pending_key ems_dir) t ≡ none)
  unfolding install install_in read_file change ◌>>=◌ ◌>>◌
  install-installs chain key s h =
      let s1 = placed first_dir (front "server.pem") (front "server-key.pem") chain key s in
      let s2 = placed second_dir (back "cert.pem") (back "key.pem") chain key s1 in
      rw h (
        _,
        refl,
        m.read-unlink_other (pending_key ems_dir) (front "server.pem") s2 (
              child_path-apart ems_dir (text "tls") (text "tls") (text "pending-key.pem")
                (text "server.pem") refl)
            ∙ (written_past second_dir (back "cert.pem") (back "key.pem") (front "server.pem") chain
                  key s1
                  (child_path-apart ems_dir (text "der-control-tls") (text "tls") (text "cert.pem")
                    (text "server.pem") refl)
                  (child_path-apart ems_dir (text "der-control-tls") (text "tls") (text "key.pem")
                    (text "server.pem") refl)
                ∙ cert_written first_dir (front "server.pem") (front "server-key.pem") chain key s (
                    child_path-apart ems_dir (text "tls") (text "tls") (text "server-key.pem")
                      (text "server.pem") refl)),
        m.read-unlink_other (pending_key ems_dir) (front "server-key.pem") s2 (
              child_path-apart ems_dir (text "tls") (text "tls") (text "pending-key.pem")
                (text "server-key.pem") refl)
            ∙ (written_past second_dir (back "cert.pem") (back "key.pem") (front "server-key.pem")
                  chain key s1
                  (child_path-apart ems_dir (text "der-control-tls") (text "tls") (text "cert.pem")
                    (text "server-key.pem") refl)
                  (child_path-apart ems_dir (text "der-control-tls") (text "tls") (text "key.pem")
                    (text "server-key.pem") refl)
                ∙ m.read-write (front "server-key.pem") key _),
        m.read-unlink_other (pending_key ems_dir) (back "cert.pem") s2 (
              child_path-apart ems_dir (text "tls") (text "der-control-tls")
                (text "pending-key.pem") (text "cert.pem") refl)
            ∙ cert_written second_dir (back "cert.pem") (back "key.pem") chain key s1 (
                child_path-apart ems_dir (text "der-control-tls") (text "der-control-tls")
                  (text "key.pem") (text "cert.pem") refl),
        m.read-unlink_other (pending_key ems_dir) (back "key.pem") s2 (
              child_path-apart ems_dir (text "tls") (text "der-control-tls")
                (text "pending-key.pem") (text "key.pem") refl)
            ∙ m.read-write (back "key.pem") key _,
        m.read-unlink (pending_key ems_dir) s2,
      )
