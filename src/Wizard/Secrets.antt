-- ===== src/Wizard/Secrets.antt =====
-- src/wizard/secrets_env.py: the env file that the pages leave their connection values in.
pub mod Laws
use platform_api.Prelude.{
  Bool, List, Option, Text, [], all, contains, false, if◌then◌else◌, join, keep, map, none, not,
  refl, some, text, text_eq, ℕ, ◌&&◌, ◌++◌, ◌==◌, ◌∷◌, ◌≡◌,
}
use platform_api.Wizard.Lines.{splitlines}

abbrev pub equals_sign : ℕ
equals_sign = b'='

-- `line.partition("=")`: the parts before and after the first sign
pub key_of : Text → Text
key_of [] = []
key_of (c ∷ s) = let rest = key_of s in if c == equals_sign then [] else c ∷ rest

pub value_of : Text → Text
value_of [] = []
value_of (c ∷ s) = let rest = value_of s in if c == equals_sign then s else rest

abbrev pub Values : Type 0
Values = List (Text × Text)

abbrev pub names_of : Values → List Text
names_of values = map (λ (v : Text × Text). v.0) values

abbrev pub assignment : Text × Text → Text
assignment (name, value) = name ++ equals_sign ∷ value

-- the lines of a file, none where there is no file
abbrev pub lines_of : Option Text → List Text
lines_of none = []
lines_of (some content) = splitlines content

pub saved_lines : Option Text → Values → List Text
unfolding splitlines key_of
saved_lines file values =
    keep (λ line. not (contains (key_of line) (names_of values))) (lines_of file)
    ++ map assignment values

-- the content that is written
unfoldable pub save_secrets : Option Text → Values → Text
unfolding saved_lines
save_secrets file values = join (text "\n") (saved_lines file values) ++ text "\n"

pub find_value : Text → List Text → Option Text
unfolding key_of value_of
find_value name [] = none
find_value name (line ∷ lines) =
    let rest = find_value name lines in
    if text_eq (key_of line) name then some (value_of line) else rest

unfoldable pub read_secret : Text → Option Text → Option Text
unfolding find_value splitlines
read_secret name file = find_value name (lines_of file)

-- `saved_check` on a file and whether only root may read it
unfoldable pub saved_ok : Option Text → Bool → List Text → Bool
unfolding splitlines key_of
saved_ok none root_only names = false
saved_ok (some content) root_only names =
    all (λ name. contains name (map key_of (splitlines content))) names && root_only

abbrev env_file : Option Text
env_file = some (text "A=1\nB=2\n")

save_secrets_test : save_secrets env_file ((text "A", text "3") ∷ []) ≡ text "B=2\nA=3\n"
unfolding save_secrets
save_secrets_test = refl
