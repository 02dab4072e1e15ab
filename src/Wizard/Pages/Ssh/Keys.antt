-- ===== src/Wizard/Pages/Ssh/Keys.antt =====
-- What SshService._append_authorized_key of src/wizard/ssh_service.py leaves in the file of keys.
use platform_api.Prelude.{
  All, Bool-cases, List, Option, Result, Text, Unicode, [], append_assoc, change, contains, gets,
  if◌then◌else◌, inl, inr, none, refl, some, sym, text, ℕ, ◌++◌, ◌>>=◌, ◌>>◌, ◌∙◌, ◌∷◌, ◌≡◌,
}
use platform_api.Wizard.Lines.Laws.{IsLine, splitlines-with_breaks, with_breaks}
use platform_api.Wizard.Machine.{Machine}
use platform_api.Wizard.Pages.Ssh.{
  KeyTools, SshAccount, append_authorized_key, appended, authorized_keys, key_lines, ssh_directory,
}

-- The file is these lines, each of them ended, or there is no file and no line.
abbrev pub HoldsLines : Option Text → List Text → Type 0
HoldsLines none ls = ls ≡ []
HoldsLines (some file) ls = file ≡ with_breaks ls

with_breaks-append :
    (ls : List Text) (l : Text) → with_breaks ls ++ (l ++ text "\n") ≡ with_breaks (ls ++ l ∷ [])
with_breaks-append [] l = refl
with_breaks-append (k ∷ ls) l = simp (append_assoc, with_breaks-append ls l)

key_lines-HoldsLines :
    (file : Option Text) (ls : List Text) → HoldsLines file ls → All IsLine ls → key_lines file ≡ ls
key_lines-HoldsLines none ls h lines = sym h
key_lines-HoldsLines (some file) ls h lines = rw h (splitlines-with_breaks ls lines)

appended-HoldsLines :
    (file : Option Text) (ls : List Text) (key : Text)
    → HoldsLines file ls
    → appended file key ≡ with_breaks (ls ++ key ∷ [])
appended-HoldsLines none ls key h = rw h refl
appended-HoldsLines (some file) ls key h = rw h (with_breaks-append ls key)

module _ {S : Type 0} (m : Machine S) (k : KeyTools S) (account : SshAccount)
    (read-chown : (p q : Text) (uid gid : ℕ) (s : S)
      → m.read_text q (k.chown p uid gid s) ≡ m.read_text q s) where
  -- the two changes of a path
  owned : Text → ℕ → S → S
  owned path mode s = k.chown path account.uid account.gid (m.chmod path mode s)

  read-owned : (p q : Text) (mode : ℕ) (s : S) → m.read_text q (owned p mode s) ≡ m.read_text q s
  unfolding owned
  read-owned p q mode s =
      read-chown p q account.uid account.gid (m.chmod p mode s) ∙ m.read-chmod p q mode s

  -- The state after the choice whether to write.
  written : Text → S → S
  written key s =
      (if contains key (key_lines (m.read_text (authorized_keys account) s))
          then (λ s. s)
          else m.write_text (authorized_keys account)
              (appended (m.read_text (authorized_keys account) s) key))
        s

  written-HoldsLines :
      (key : Text) (ls : List Text) (s : S)
      → HoldsLines (m.read_text (authorized_keys account) s) ls
      → All IsLine ls
      → HoldsLines
          (m.read_text (authorized_keys account) (written key s))
          (if contains key ls then ls else ls ++ key ∷ [])
  unfolding written
  written-HoldsLines key ls s h lines =
      rw (key_lines-HoldsLines (m.read_text (authorized_keys account) s) ls h lines)
        (elim (Bool-cases (contains key ls)) [
          | inl there ↦ rw there h
          | inr new ↦
              rw
                (
                  new,
                  m.read-write (authorized_keys account)
                      (appended (m.read_text (authorized_keys account) s) key) s,
                )
                (appended-HoldsLines (m.read_text (authorized_keys account) s) ls key h)
        ])

  -- The lines of the file of keys, if they are ended, are kept, in order, and the key is the last of
  -- them afterwards unless it was one of them before. It is a premise that `os.chown` changes no
  -- file's text.
  pub append_authorized_key-adds :
      (u : Unicode) (key : Text) (ls : List Text) (s : S)
      → HoldsLines (m.read_text (authorized_keys account) s) ls
      → All IsLine ls
      → (t : S) × (append_authorized_key u m k account key s ≡ (Result.ok tt, t))
        × HoldsLines
            (m.read_text (authorized_keys account) t)
            (if contains key ls then ls else ls ++ key ∷ [])
  unfolding append_authorized_key owned written ◌>>=◌ ◌>>◌ change gets
  append_authorized_key-adds u key ls s h lines =
      let made = m.mkdir (ssh_directory account) s in
      let next = owned (ssh_directory account) 448 (written key made) in
      (
        owned (authorized_keys account) 384 next,
        refl,
        rw
            (
              read-owned (authorized_keys account) (authorized_keys account) 384 next,
              read-owned (ssh_directory account) (authorized_keys account) 448 (written key made),
            )
            (written-HoldsLines key ls made
              (rw (m.read-mkdir (ssh_directory account) (authorized_keys account) s) h) lines),
      )
