-- ===== src/Wizard/Pages/Neo4j.antt =====
-- src/wizard/neo4j_service.py, with the commands of neo4j_verify.py.
pub mod Literals
pub mod Password
mod Examples
use platform_api.Prelude.{
  Bool, List, Option, Result, Text, Unicode, [], answer, any, change, contains, err, false,
  flat_map, gets, if◌then◌else◌, none, pure, some, strip, suc, text, true, zero, ℕ, ◌++◌, ◌==◌,
  ◌>>=◌, ◌>>◌, ◌∷◌,
}
use platform_api.Wizard.Machine.{Halt, Machine, Step, plain, waiting}
use platform_api.Wizard.Pages.{
  DockerNetwork, missing_network_check, page, read_network, run_for, run_only, save_at,
}
use platform_api.Wizard.Steps.{Box, StepResult, VerifyCheck}
use platform_api.Wizard.Lines.{splitlines}
use platform_api.Wizard.Secrets.{read_secret}
use platform_api.Wizard.Pages.Neo4jTexts.{
  bolt_port, ends_with, graph_url_name, old_passwords, password_command, setting, settings_for,
  sockets,
}

module _ {S : Type 0} (u : Unicode) (m : Machine S) where
  pub configure : DockerNetwork → Step S (Unit {0})
  configure network = do
    run_only u m (
        plain (
          text "sed" ∷ text "-i" ∷ flat_map setting (settings_for network)
          ++ text "/etc/neo4j/neo4j.conf" ∷ []))
    run_only u m (plain (text "systemctl" ∷ text "enable" ∷ text "neo4j" ∷ []))
    run_only u m (plain (text "systemctl" ∷ text "restart" ∷ text "neo4j" ∷ []))

  pub listeners : Step S (List Text)
  unfolding sockets splitlines
  listeners = do
    out ← run_for u m (
        plain (
          text "ss"
          ∷ text "-Htln"
          ∷ text "( sport = :7687 or sport = :7474 or sport = :7473 )"
          ∷ []))
    λ s. (sockets u (splitlines out.stdout), s)

  -- `systemctl is-active` says that the unit is there or on its way
  pub unit_active : Step S Bool
  unit_active = do
    state ← run_for u m (plain (text "systemctl" ∷ text "is-active" ∷ text "neo4j" ∷ []))
    pure (contains (strip u.is_space state.stdout) (text "active" ∷ text "activating" ∷ []))

  -- the loop, on fuel
  pub wait_for_bolt : ℕ → Step S Bool
  unfolding listeners unit_active
  wait_for_bolt zero = λ s. (err waiting, s)
  wait_for_bolt (suc fuel) =
      let again = change m.sleep >> wait_for_bolt fuel in
      do
        found ← listeners
        if any (λ a. ends_with a (text ":7687")) found
            then pure true
            else (do active ← unit_active; if active then again else pure false)

  -- the passwords in turn, until one is accepted
  pub try_old : DockerNetwork → Text → List Text → Step S Bool
  unfolding password_command
  try_old network password [] = pure false
  try_old network password (old ∷ olds) =
      let others = try_old network password olds in
      do
        out ← run_for u m (password_command network old password)
        if out.returncode == 0 then pure true else others

  -- `url_password` reads the password of a URL; `secrets` is the path of the secrets file.
  unfoldable pub set_password : (Text → Option Text) → Text → Text → DockerNetwork → Step S Bool
  unfolding try_old
  set_password url_password secrets password network = do
    file ← gets (m.read_text secrets)
    try_old network password (old_passwords url_password (read_secret graph_url_name file))

  -- the wait and the change, and the URL saved where both went well; `quote` is that of urllib
  pub secure :
      ℕ
      → (Text → Text)
      → (Text → Option Text)
      → Text
      → Text
      → Text
      → DockerNetwork
      → Step S (Unit {0})
  unfolding wait_for_bolt
  secure fuel quote url_password secrets_dir secrets password network = do
    bolt_open ← wait_for_bolt fuel
    changed ← (if bolt_open then set_password url_password secrets password network else pure false)
    if changed
        then save_at u m secrets_dir secrets (
            (
              graph_url_name,
              text "bolt://neo4j:" ++ (quote password ++ (64 ∷ network.gateway ++ 58 ∷ bolt_port)),
            )
            ∷ [])
        else pure tt

  -- `verify` is verify_neo4j for the password and the network.
  pub neo4j_work :
      ℕ
      → (Text → Bool)
      → (Text → Bool)
      → (Text → Text)
      → (Text → Option Text)
      → Text
      → Text
      → Text
      → (DockerNetwork → S → List VerifyCheck × S)
      → Step S (List VerifyCheck)
  unfolding secure
  neo4j_work fuel is_range is_address quote url_password secrets_dir secrets password verify = do
    found ← read_network u m is_range is_address
    on_network found
    where
      on_network : Option DockerNetwork → Step S (List VerifyCheck)
      on_network none = pure (missing_network_check ∷ [])
      on_network (some network) = do
        configure network
        secure fuel quote url_password secrets_dir secrets password network
        answer (verify network)

  unfoldable pub apply_neo4j :
      ℕ
      → (Text → Bool)
      → (Text → Bool)
      → (Text → Text)
      → (Text → Option Text)
      → Text
      → Text
      → Text
      → (DockerNetwork → S → List VerifyCheck × S)
      → Box S
      → Result Halt StepResult × Box S
  unfolding page
  apply_neo4j fuel is_range is_address quote url_password secrets_dir secrets password verify =
      page (text "neo4j") (text "Neo4j is already set up")
        (neo4j_work fuel is_range is_address quote url_password secrets_dir secrets password verify)
