-- ===== src/Wizard/Pages.antt =====
-- src/wizard/: what the pages that start a daemon share, with docker_verify.read_network.
pub mod Containers
pub mod Marking
pub mod Keeping
pub mod Neo4jTexts
pub mod Neo4j
pub mod Certificates
pub mod Https
pub mod Credentials
pub mod Broker
pub mod Postgres
pub mod Telemetry
pub mod Ssh
pub mod DerRows
pub mod DerControl
mod Host
mod Examples
use platform_api.Prelude.{
  Bool, List, Option, Result, Text, Unicode, [], answer, change, decimal, err, false, gets,
  has_infix, if◌then◌else◌, is_empty, none, some, strip, text, ◌&&◌, ◌++◌, ◌==◌, ◌>>=◌, ◌>>◌, ◌∷◌,
}
use platform_api.Wizard.Steps.{
  Box, CommandOutput, Markers, StepResult, VerifyCheck, conclude, is_done, step_already_done,
}
use platform_api.Wizard.Secrets.{Values, save_secrets}
use platform_api.Wizard.Machine.{Command, Halt, Machine, Step, crashed, plain, refused, words}

-- the page's conclusion where its work comes to an end
abbrev pub finish :
    {S : Type 0}
    → Text
    → Markers
    → Result Halt (List VerifyCheck) × S
    → Result Halt StepResult × Box S
finish step markers (Result.ok checks, s) =
    let (result, box) = conclude step checks (record { markers = markers; system = s }) in
    (Result.ok result, box)
finish step markers (err e, s) = (err e, record { markers = markers; system = s })

-- A page's `apply`, whose work may also raise: refused where its marker is set.
unfoldable pub page :
    {S : Type 0} → Text → Text → Step S (List VerifyCheck) → Box S → Result Halt StepResult × Box S
page step already work box =
    if is_done step box.markers
    then (err (refused (step_already_done already)), box)
    else finish step box.markers (work box.system)

-- `out.stdout.strip() or f"exit {out.returncode}"`
unfoldable pub shown : Unicode → CommandOutput → Text
shown u out =
    let stripped = strip u.is_space out.stdout in
    if is_empty stripped then text "exit " ++ decimal out.returncode else stripped

-- Docker's arcnode network: its range and its gateway.
pub record DockerNetwork : Type 0 where
  pub subnet : Text
  pub gateway : Text

abbrev pub docker_network : Text
docker_network = text "arcnode"

-- The one row of a page that does not find the network.
abbrev pub missing_network_check : VerifyCheck
missing_network_check = record {
  name = text "Docker's arcnode network";
  ok = false;
  detail = text "not found — this page trusts the range Docker gives that network";
  hint = text "Finish the Docker page first; sudo docker network ls";
}

-- the unpacking of the two words; `is_range` and `is_address` are the parsers of Python's ipaddress
abbrev network_of : (Text → Bool) → (Text → Bool) → List Text → Result Halt (Option DockerNetwork)
network_of is_range is_address (subnet ∷ gateway ∷ []) =
    if is_range subnet && is_address gateway
    then Result.ok (some (record { subnet = subnet; gateway = gateway }))
    else err (crashed (text "not an address"))
network_of is_range is_address words = err (crashed (text "not two words"))

module _ {S : Type 0} (u : Unicode) (m : Machine S) where
  -- the run of a command whose answer is used
  unfoldable pub run_for : Command → Step S CommandOutput
  run_for command = answer (m.run command)

  -- the run of a command whose answer is dropped
  unfoldable pub run_only : Command → Step S (Unit {0})
  run_only command = change (λ s. (m.run command s).1)

  unfoldable pub inspect_network : Step S CommandOutput
  unfolding run_for
  inspect_network = run_for (
      plain (
        text "docker"
        ∷ text "network"
        ∷ text "inspect"
        ∷ docker_network
        ∷ text "-f"
        ∷ text "{{range .IPAM.Config}}{{.Subnet}} {{.Gateway}}{{end}}"
        ∷ []))

  unfoldable pub read_network : (Text → Bool) → (Text → Bool) → Step S (Option DockerNetwork)
  unfolding inspect_network
  read_network is_range is_address = do
    out ← inspect_network
    λ s. (
      if out.returncode == 0
          then network_of is_range is_address (words u.is_space out.stdout)
          else Result.ok none,
      s,
    )

  -- `save_secrets` on the file of a path
  unfoldable pub save_at : Text → Text → Values → Step S (Unit {0})
  save_at directory path values = do
    file ← gets (m.read_text path)
    change (m.mkdir directory)
    change (m.touch path 384)
    change (m.chmod path 384)
    change (m.write_text path (save_secrets file values))

  -- a check that a line is in the logs of a container
  unfoldable pub has_line : CommandOutput → Text → Text → Text → Text → Text → VerifyCheck
  has_line logs line name found missing hint = record {
    name = name;
    ok = has_infix logs.stdout line;
    detail = if has_infix logs.stdout line then found else missing;
    hint = hint;
  }
