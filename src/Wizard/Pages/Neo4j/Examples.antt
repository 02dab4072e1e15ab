-- ===== src/Wizard/Pages/Neo4j/Examples.antt =====
-- A change of the password by src/wizard/neo4j_service.py on a small server.
use platform_api.Prelude.{
  Option, Result, Text, [], ap, ascii, contains, if◌then◌else◌, none, not, refl, some, suc, text,
  text_eq, text_eq_refl, zero, ℕ, ◌&&◌, ◌++◌, ◌∙◌, ◌∷◌, ◌≡◌,
}
use platform_api.Wizard.Steps.{CommandOutput}
use platform_api.Wizard.Machine.{Command, Machine}
use platform_api.Wizard.Pages.{DockerNetwork}
use platform_api.Wizard.Pages.Host.{Host, host_machine}
use platform_api.Wizard.Pages.Neo4j.{set_password}
use platform_api.Wizard.Pages.Neo4j.Literals.{read_literal, read_literal-cypher_string}
use platform_api.Wizard.Secrets.{read_secret}
use platform_api.Wizard.Pages.Neo4j.Password.{IsServer, set_password-current}
use platform_api.Wizard.Pages.Neo4jTexts.{
  cypher_string, graph_url_name, old_passwords, password_command,
}

abbrev drop : ℕ → Text → Text
drop zero s = s
drop (suc n) [] = []
drop (suc n) (c ∷ s) = drop n s

abbrev read_at : ℕ → Text → Option (Text × Text)
read_at n s = read_literal (λ c r. none) (drop n s)

abbrev second : Text → Option (Text × Text) → Option (Text × Text)
second old none = none
second old (some (new, rest)) = some (old, new)

abbrev both : Option (Text × Text) → Option (Text × Text)
both none = none
both (some (old, rest)) = second old (read_at 15 rest)

-- the two passwords of a script
parsed : Text → Option (Text × Text)
parsed script = both (read_at 14 script)

abbrev changed : Text → Option (Text × Text) → Host → CommandOutput × Host
changed before none s = (record { returncode = 1; stdout = [] }, s)
changed before (some (old, new)) s =
    if text_eq old before && not (text_eq old new)
    then (record { returncode = 0; stdout = [] }, record { files = s.files; password = new })
    else (record { returncode = 1; stdout = [] }, s)

abbrev script_of : Option Text → Text
script_of none = []
script_of (some script) = script

serve_command : Command → Host → CommandOutput × Host
unfolding parsed
serve_command c s = changed s.password (parsed (script_of c.input)) s

abbrev server_machine : Machine Host
server_machine = host_machine serve_command

abbrev bridge : DockerNetwork
bridge = record { subnet = text "172.18.0.0/16"; gateway = text "172.18.0.1" }

parsed-command :
    (old new : Text) → parsed (script_of (password_command bridge old new).input) ≡ some (old, new)
unfolding parsed password_command
parsed-command old new =
    let tail = text "\nALTER CURRENT USER SET PASSWORD FROM $old TO $new;\n" in
    ap both (
      read_literal-cypher_string (λ c r. none) old
        (text "\n:param new => " ++ (cypher_string new ++ tail)))
    ∙ ap (second old) (read_literal-cypher_string (λ c r. none) new tail)

-- the server's answer to a change
served :
    (old new : Text) (s : Host)
    → server_machine.run (password_command bridge old new) s
      ≡ changed s.password (some (old, new)) s
unfolding serve_command
served old new s = ap (λ o. changed s.password o s) (parsed-command old new)

server : IsServer server_machine bridge (λ s. s.password)
server = record {
  accepts = λ old new s e d. rw (served, e, d) (refl, refl);
  refuses = λ old new s e. rw (served, e) (refl, refl);
  same = λ old s e. rw (served, e, text_eq_refl old) (refl, refl);
}

abbrev saved_host : Host
saved_host = record { files = λ p. some (text "GRAPH_URL=earlier\n"); password = text "earlier" }

set_password-current_example :
    (let olds =
        old_passwords
          (λ url. some url)
          (read_secret graph_url_name (server_machine.read_text (text "secrets.env") saved_host)) in
      ((set_password ascii server_machine
          (λ url. some url)
          (text "secrets.env")
          (text "later")
          bridge
          saved_host).0
        ≡ Result.ok
            (contains (text "earlier") olds && not (text_eq (text "later") (text "earlier"))))
      × ((set_password ascii server_machine
            (λ url. some url)
            (text "secrets.env")
            (text "later")
            bridge
            saved_host).1.password
          ≡ (if contains (text "earlier") olds then text "later" else text "earlier")))
set_password-current_example =
    set_password-current ascii server_machine bridge (λ s. s.password) server (λ url. some url)
      (text "secrets.env") (text "later") saved_host
