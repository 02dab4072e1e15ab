-- ===== src/Wizard/Pages/Neo4jTexts.antt =====
-- src/wizard/neo4j_service.py and neo4j_verify.py: literals, passwords, sockets and settings.
use platform_api.Prelude.{
  Bool, List, Option, Result, Text, Unicode, [], after_last, err, if◌then◌else◌, is_empty, join,
  keep, none, not, reverse, some, split, starts_with, strip, text, text_eq, ℕ, ◌++◌, ◌==◌, ◌||◌,
  ◌∷◌,
}
use platform_api.Wizard.Machine.{Command, Halt, crashed, words}
use platform_api.Wizard.Pages.{DockerNetwork}

-- `s.replace(c, by)` for one character
unfoldable pub replace_char : ℕ → Text → Text → Text
replace_char c by [] = []
replace_char c by (d ∷ s) =
    let rest = replace_char c by s in if d == c then by ++ rest else d ∷ rest

abbrev pub backslash : ℕ
backslash = 92

abbrev pub quote_mark : ℕ
quote_mark = 39

-- A single-quoted Cypher literal.
unfoldable pub cypher_string : Text → Text
unfolding replace_char
cypher_string value =
    quote_mark
      ∷ replace_char quote_mark (backslash ∷ quote_mark ∷ [])
          (replace_char backslash (backslash ∷ backslash ∷ []) value)
    ++ quote_mark ∷ []

abbrev pub graph_url_name : Text
graph_url_name = text "GRAPH_URL"

abbrev pub default_password : Text
default_password = text "neo4j"

abbrev pub bolt_port : Text
bolt_port = text "7687"

-- `cypher(network, old)` with the script on stdin
unfoldable pub password_command : DockerNetwork → Text → Text → Command
unfolding cypher_string
password_command network old password = record {
  args =
      text "cypher-shell"
      ∷ text "-a"
      ∷ (text "bolt://" ++ (network.gateway ++ 58 ∷ bolt_port))
      ∷ text "-u"
      ∷ text "neo4j"
      ∷ text "-d"
      ∷ text "system"
      ∷ text "--format"
      ∷ text "plain"
      ∷ [];
  input = some (
      text ":param old => "
      ++ (cypher_string old
          ++ (text "\n:param new => "
              ++ (cypher_string password
                  ++ text "\nALTER CURRENT USER SET PASSWORD FROM $old TO $new;\n"))));
  env = (text "NEO4J_PASSWORD", old) ∷ [];
}

-- `dict.fromkeys` of a list: its items, each once
abbrev pub once : List Text → List Text
once [] = []
once (x ∷ xs) = x ∷ keep (λ y. not (text_eq y x)) (once xs)

abbrev pub with_saved : Option Text → List Text
with_saved none = default_password ∷ []
with_saved (some old) = once (default_password ∷ old ∷ [])

-- The old passwords that are tried: the default, and that of the saved URL. `url_password` reads the
-- password of a URL, unquoted, where it has one that is not empty.
unfoldable pub old_passwords : (Text → Option Text) → Option Text → List Text
old_passwords url_password none = default_password ∷ []
old_passwords url_password (some saved) =
    if is_empty saved then default_password ∷ [] else with_saved (url_password saved)

abbrev pub skip : Text → Text → Text
skip [] s = s
skip (c ∷ p) [] = []
skip (c ∷ p) (d ∷ s) = skip p s

-- `text.removeprefix(p)`
abbrev pub remove_prefix : Text → Text → Text
remove_prefix p s = if starts_with s p then skip p s else s

abbrev pub but_last : List Text → List Text
but_last [] = []
but_last (x ∷ []) = []
but_last (x ∷ y ∷ xs) = x ∷ but_last (y ∷ xs)

-- A socket as `address:port`, of the two parts that `rpartition(":")` gives.
unfoldable pub socket_of : Text → Text
socket_of column =
    let address = join (58 ∷ []) (but_last (split 58 column)) in
    remove_prefix (text "::ffff:") (strip (λ c. c == 91 || c == 93) address)
    ++ 58 ∷ after_last 58 column

-- the fourth word of each line
unfoldable pub sockets : Unicode → List Text → Result Halt (List Text)
unfolding socket_of
sockets u [] = Result.ok []
sockets u (line ∷ lines) = listed (words u.is_space line) (sockets u lines)
  where
    listed : List Text → Result Halt (List Text) → Result Halt (List Text)
    listed (a ∷ b ∷ c ∷ column ∷ more) (Result.ok rest) = Result.ok (socket_of column ∷ rest)
    listed (a ∷ b ∷ c ∷ column ∷ more) (err e) = err e
    listed few rest = err (crashed (text "list index out of range"))

abbrev pub ends_with : Text → Text → Bool
ends_with s p = starts_with (reverse s) (reverse p)

abbrev pub setting : Text × Text → List Text
setting (name, value) =
    text "-e"
    ∷ (text "s/^#\\?" ++ (name ++ (text "=.*/" ++ (name ++ (61 ∷ value ++ text "/")))))
    ∷ []

abbrev pub settings_for : DockerNetwork → List (Text × Text)
settings_for network =
    (text "server.default_listen_address", network.gateway)
    ∷ (text "server.http.enabled", text "false")
    ∷ (text "server.memory.heap.initial_size", text "4g")
    ∷ (text "server.memory.heap.max_size", text "4g")
    ∷ (text "server.memory.pagecache.size", text "4g")
    ∷ []
