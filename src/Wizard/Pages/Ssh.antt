-- ===== src/Wizard/Pages/Ssh.antt =====
-- src/wizard/ssh_service.py and ssh_verify.py: the page that takes the customer's own key.
pub mod Keys
use platform_api.Prelude.{
  Bool, List, Option, Result, Text, Unicode, [], answer, change, contains, err, false, gets,
  has_infix, if◌then◌else◌, is_empty, keep, none, not, pure, raise_error, refl, some, starts_with,
  strip, text, text_eq, true, ℕ, ◌%◌, ◌&&◌, ◌++◌, ◌==◌, ◌>>=◌, ◌>>◌, ◌∷◌, ◌≡◌,
}
use platform_api.Wizard.Steps.{Box, CommandOutput, StepResult, VerifyCheck}
use platform_api.Wizard.Lines.{splitlines}
use platform_api.Wizard.Machine.{Halt, Machine, Step, child_path, crashed, plain, words}
use platform_api.Wizard.Pages.{page, run_for, shown}
use platform_api.Wizard.Lockdown.{first_line}

pub record SshAccount : Type 0 where
  pub name : Text
  pub home : Text
  pub uid : ℕ
  pub gid : ℕ

-- What the page asks of the box without the runner: `shutil.which("ssh-keygen")`, the run of that
-- program on a key, `os.chown`, and the mode and the owner of `Path.stat`.
pub record KeyTools (S : Type 0) : Type 0 where
  pub which : S → Option Text
  pub keygen : Text → Text → S → CommandOutput × S
  pub chown : Text → ℕ → ℕ → S → S
  pub stat : Text → S → ℕ × ℕ

-- the lines of a file; an absent file has none
abbrev pub key_lines : Option Text → List Text
key_lines none = []
key_lines (some file) = splitlines file

-- the file after `f.write(key + "\n")`, opened to append
abbrev pub appended : Option Text → Text → Text
appended none key = key ++ text "\n"
appended (some file) key = file ++ (key ++ text "\n")

abbrev invalid_key : Halt
invalid_key = crashed (text "InvalidSshKeyError")

abbrev no_keygen : Halt
no_keygen = crashed (text "ssh-keygen not found on PATH")

abbrev ssh_row : Text → Bool → Text → Text → VerifyCheck
ssh_row name passed detail hint = record { name = name; ok = passed; detail = detail; hint = hint }

abbrev pub ssh_directory : SshAccount → Text
ssh_directory account = child_path account.home (text ".ssh")

abbrev pub authorized_keys : SshAccount → Text
authorized_keys account = child_path (ssh_directory account) (text "authorized_keys")

-- `words[1]`
abbrev second_word : {S : Type 0} → List Text → Step S Text
second_word (first ∷ second ∷ more) s = (Result.ok second, s)
second_word few s = (err (crashed (text "IndexError")), s)

-- `[line for line in lines if line and not line.startswith("#")]`
abbrev host_keys : Text → List Text
host_keys out = keep (λ l. not (is_empty l) && not (starts_with l (text "#"))) (splitlines out)

module _ {S : Type 0} (u : Unicode) (m : Machine S) (k : KeyTools S) (account : SshAccount) where
  -- `_validate_public_key`
  unfoldable pub validate_public_key : Text → Step S (Unit {0})
  validate_public_key key =
      if has_infix key (text "PRIVATE KEY")
      then raise_error invalid_key
      else if has_infix key (text "\n")
      then raise_error invalid_key
      else (gets k.which >>= judge)
    where
      verdict : CommandOutput → Step S (Unit {0})
      verdict out = if out.returncode == 0 then pure tt else raise_error invalid_key

      judge : Option Text → Step S (Unit {0})
      judge none = raise_error no_keygen
      judge (some program) = answer (k.keygen program key) >>= verdict

  -- `chmod` and `chown` of a path
  abbrev own : Text → ℕ → Step S (Unit {0})
  own path mode = change (m.chmod path mode) >> change (k.chown path account.uid account.gid)

  -- `SshService._append_authorized_key`
  unfoldable pub append_authorized_key : Text → Step S (Unit {0})
  append_authorized_key key = do
    change (m.mkdir (ssh_directory account))
    file ← gets (m.read_text (authorized_keys account))
    change (
        if contains key (key_lines file)
        then (λ s. s)
        else m.write_text (authorized_keys account) (appended file key))
    own (ssh_directory account) 448
    own (authorized_keys account) 384

  -- `_daemon_running`
  pub ssh_daemon_running : Step S VerifyCheck
  ssh_daemon_running = do
    out ← run_for u m (plain (text "systemctl" ∷ text "is-active" ∷ text "ssh" ∷ []))
    pure (
        ssh_row (text "SSH daemon running") (text_eq (shown u out) (text "active")) (shown u out)
          (text "sudo systemctl status ssh && sudo sshd -t"))

  -- `_answers_on_port_22`
  pub answers_on_port_22 : Step S VerifyCheck
  answers_on_port_22 = do
    out ← run_for u m (plain (text "ssh-keyscan" ∷ text "localhost" ∷ []))
    judge out.returncode (host_keys out.stdout)
    where
      judged : Bool → Text → VerifyCheck
      judged passed detail =
          ssh_row (text "Answers SSH on port 22") passed detail
            (text "sudo ss -ltnp | grep sshd; sudo journalctl -u ssh")

      judge : ℕ → List Text → Step S VerifyCheck
      judge code [] = pure (judged false (text "no SSH answer on localhost:22"))
      judge code (line ∷ lines) =
          if code == 0
          then (do
            kind ← second_word (words u.is_space line)
            pure (judged true (text "host key " ++ kind)))
          else pure (judged false (text "no SSH answer on localhost:22"))

  -- `_key_login_allowed`
  pub key_login_allowed : Step S VerifyCheck
  key_login_allowed = do
    out ← run_for u m (
        plain (
          text "sshd"
          ∷ text "-T"
          ∷ text "-C"
          ∷ (text "user=" ++ (account.name ++ text ",host=localhost,addr=127.0.0.1"))
          ∷ []))
    let setting = first_line (text "pubkeyauthentication ") (splitlines out.stdout) (shown u out)
    pure (
        ssh_row (text "Key login allowed for " ++ account.name)
          (text_eq setting (text "pubkeyauthentication yes")) setting
          (text "sudo sshd -T -C user="
            ++ (account.name
                ++ text
                    ",host=localhost,addr=127.0.0.1 | grep pubkey; grep -ri pubkey /etc/ssh/sshd_config /etc/ssh/sshd_config.d/")))

  -- `_fingerprint`
  pub fingerprint : Text → Step S Text
  fingerprint key = gets k.which >>= printed
    where
      judge : CommandOutput → Step S Text
      judge out =
          if out.returncode == 0
          then second_word (words u.is_space out.stdout)
          else raise_error (crashed (text "CalledProcessError"))

      printed : Option Text → Step S Text
      printed none = raise_error no_keygen
      printed (some program) = answer (k.keygen program key) >>= judge

  abbrev key_row : Bool → Text → VerifyCheck
  key_row passed detail = ssh_row (text "Your key is installed") passed detail (
      text "sudo ls -la ~"
      ++ (account.name
          ++ (text "/.ssh; sudo cat ~" ++ (account.name ++ text "/.ssh/authorized_keys"))))

  -- the body of the loop over the two paths: whether the mode and the owner are as they must be
  abbrev is_owned : Text → ℕ → S → Bool
  is_owned path mode s =
      let (found, owner) = k.stat path s in found % 512 == mode && owner == account.uid

  abbrev not_owned : Text → Text → VerifyCheck
  not_owned path mode =
      key_row false (path ++ (text " must be " ++ (mode ++ (text ", owned by " ++ account.name))))

  -- `_key_installed`
  pub key_installed : Text → Step S VerifyCheck
  unfolding fingerprint
  key_installed key = do
    file ← gets (m.read_text (authorized_keys account))
    directory ← gets (is_owned (ssh_directory account) 448)
    keys ← gets (is_owned (authorized_keys account) 384)
    if not (contains key (key_lines file))
        then pure (key_row false (text "not in " ++ authorized_keys account))
        else if not directory
        then pure (not_owned (ssh_directory account) (text "700"))
        else if not keys
        then pure (not_owned (authorized_keys account) (text "600"))
        else (do
          shown ← fingerprint key
          pure (key_row true (shown ++ text " — should match: ssh-keygen -lf private-key.pem")))

  -- `verify_ssh`
  pub verify_ssh : Text → Step S (List VerifyCheck)
  unfolding ssh_daemon_running answers_on_port_22 key_login_allowed key_installed
  verify_ssh key = do
    daemon ← ssh_daemon_running
    answers ← answers_on_port_22
    allowed ← key_login_allowed
    installed ← key_installed key
    pure (daemon ∷ answers ∷ allowed ∷ installed ∷ [])

  -- `SshService.apply` past its guard
  pub ssh_work : Text → Step S (List VerifyCheck)
  unfolding verify_ssh append_authorized_key validate_public_key
  ssh_work pasted = do
    let key = strip u.is_space pasted
    validate_public_key key
    append_authorized_key key
    verify_ssh key

  -- `SshService.apply`; the account's name is in the answer beside this result.
  unfoldable pub apply_ssh : Text → Box S → Result Halt StepResult × Box S
  unfolding ssh_work page
  apply_ssh pasted = page (text "ssh") (text "SSH is already set up") (ssh_work pasted)

-- A file whose last line has no end takes the key into that line.
joined_line :
    key_lines (some (appended (some (text "ssh-rsa A")) (text "ssh-rsa B")))
    ≡ text "ssh-rsa Assh-rsa B" ∷ []
unfolding splitlines
joined_line = refl
