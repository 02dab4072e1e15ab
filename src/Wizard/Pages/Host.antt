-- ===== src/Wizard/Pages/Host.antt =====
-- A small box for the runs of the pages: files by path, a database's password, and commands.
use platform_api.Prelude.{
  Bool, List, Option, Text, [], false, if◌then◌else◌, none, refl, some, text, text_eq, text_eq_refl,
  true, ◌&&◌, ◌∷◌, ◌≡◌,
}
use platform_api.Wizard.Steps.{Box, CommandOutput}
use platform_api.Wizard.Machine.{Command, Machine}
use platform_api.Wizard.Pages.Certificates.{pending_key}

-- the files, and the password of the database
pub record Host : Type 0 where
  pub files : Text → Option Text
  pub password : Text

abbrev pub put : Text → Option Text → Host → Host
put p o s = record { files = λ q. if text_eq p q then o else s.files q; password = s.password }

abbrev pub or_empty : Option Text → Option Text
or_empty none = some []
or_empty (some t) = some t

pub put-same : (p : Text) (o : Option Text) (s : Host) → (put p o s).files p ≡ o
put-same p o s = rw (text_eq_refl p) refl

pub put-other :
    (p q : Text) (o : Option Text) (s : Host)
    → text_eq p q ≡ false
    → (put p o s).files q ≡ s.files q
put-other p q o s e = rw e refl

abbrev pub host_machine : (Command → Host → CommandOutput × Host) → Machine Host
host_machine run = record {
  run = run;
  read_text = λ p s. s.files p;
  write_text = λ p t s. put p (some t) s;
  touch = λ p mode s. put p (or_empty (s.files p)) s;
  chmod = λ p mode s. s;
  mkdir = λ p s. s;
  unlink = λ p s. put p none s;
  sleep = λ s. s;
  read-write = λ p t s. put-same p (some t) s;
  read-write_other = λ p q t s e. put-other p q (some t) s e;
  read-touch_other = λ p q mode s e. put-other p q (or_empty (s.files p)) s e;
  read-chmod = λ p q mode s. refl;
  read-mkdir = λ p q s. refl;
  read-unlink = λ p s. put-same p none s;
  read-unlink_other = λ p q s e. put-other p q none s e;
}

abbrev pub logs : Text
logs =
    text "initial spec fetched; MQTT subscriptions established; does match; start worker processes"

-- every command succeeds and prints the same, except that a key that is not there is not read
abbrev pub is_key_reading : List Text → Bool
is_key_reading [] = false
is_key_reading (program ∷ []) = false
is_key_reading (program ∷ order ∷ args) = text_eq order (text "pkey")

abbrev pub is_none : Option Text → Bool
is_none none = true
is_none (some t) = false

abbrev pub ems : Text
ems = text "/opt/arcnode"

abbrev pub quiet_run : Command → Host → CommandOutput × Host
quiet_run c s = (
  record {
    returncode = if is_key_reading c.args && is_none (s.files (pending_key ems)) then 1 else 0;
    stdout = logs;
  },
  s,
)

abbrev pub quiet_machine : Machine Host
quiet_machine = host_machine quiet_run

abbrev pub no_files : Host
no_files = record { files = λ p. none; password = text "neo4j" }

abbrev pub new_box : Box Host
new_box = record { markers = []; system = no_files }
