-- ===== src/Wizard/Steps.antt =====
-- src/wizard/wizard_steps.py, and the two pages that only check: preflight_service.py, docker_service.py.
pub mod Laws
use platform_api.Prelude.{
  Bool, List, Result, Text, [], all, contains, err, if◌then◌else◌, keep, ok, text, ℕ, ◌==◌, ◌∷◌,
}

pub record VerifyCheck : Type 0 where
  pub name : Text
  pub ok : Bool
  pub detail : Text
  pub hint : Text

pub record StepResult : Type 0 where
  pub verified : Bool
  pub checks : List VerifyCheck

pub data PageError : Type 0 where
  step_already_done : Text → PageError
  ssh_key_not_proven : PageError

pub record CommandOutput : Type 0 where
  pub returncode : ℕ
  pub stdout : Text

-- `STEPS`
abbrev pub steps : List Text
steps =
    text "preflight"
    ∷ text "site"
    ∷ text "ssh"
    ∷ text "docker"
    ∷ text "postgres"
    ∷ text "neo4j"
    ∷ text "ollama"
    ∷ text "hivemq"
    ∷ text "telemetry"
    ∷ text "device_api"
    ∷ text "der_control_api"
    ∷ text "industrial_gateway"
    ∷ text "hmi"
    ∷ text "https"
    ∷ text "mlflow"
    ∷ text "analyst_model"
    ∷ text "analyst_server"
    ∷ text "prometheus"
    ∷ text "grafana"
    ∷ text "ssh_lockdown"
    ∷ []

-- the done markers, by page
abbrev pub Markers : Type 0
Markers = List Text

unfoldable pub is_done : Text → Markers → Bool
is_done step markers = contains step markers

unfoldable pub mark_done : Text → Markers → Markers
mark_done step markers = if contains step markers then markers else step ∷ markers

unfoldable pub completed : Markers → List Text
unfolding is_done
completed markers = keep (λ s. is_done s markers) steps

unfoldable pub all_done : Markers → Bool
unfolding is_done
all_done markers = all (λ s. is_done s markers) steps

-- The box: its markers, and the rest of the system, which the commands change.
pub record Box (S : Type 0) : Type 0 where
  pub markers : Markers
  pub system : S

abbrev pub all_ok : List VerifyCheck → Bool
all_ok checks = all (λ (c : VerifyCheck). c.ok) checks

-- the end of every page: the marker is set only where each check passes
unfoldable pub conclude : {S : Type 0} → Text → List VerifyCheck → Box S → StepResult × Box S
conclude step checks box = (
  record { verified = all_ok checks; checks = checks },
  record {
    markers = if all_ok checks then mark_done step box.markers else box.markers;
    system = box.system;
  },
)

-- A page's `apply`: refused where its marker is set, else its own work and then the conclusion.
unfoldable pub apply_page :
    {S : Type 0}
    → Text
    → Text
    → (S → List VerifyCheck × S)
    → Box S
    → Result PageError StepResult × Box S
apply_page step already work box =
    let (checks, system) = work box.system in
    let (result, next) = conclude step checks (record { markers = box.markers; system = system }) in
    if is_done step box.markers
    then (err (step_already_done already), box)
    else (Result.ok result, next)

-- `run` is the system's answer to a command.
module _ {S : Type 0} (run : List Text → S → CommandOutput × S) where
  -- `PreflightService.apply`; `verify_hardware` is the checks of preflight_verify.py.
  unfoldable pub apply_preflight :
      (S → List VerifyCheck × S) → Box S → Result PageError StepResult × Box S
  unfolding apply_page
  apply_preflight verify_hardware box =
      apply_page (text "preflight") (text "the hardware check already passed") verify_hardware box

  pub docker_work :
      Text → (S → CommandOutput × S) → (S → List VerifyCheck × S) → S → List VerifyCheck × S
  docker_work account inspect_network verify_docker s =
      let (out, s1) = inspect_network s in
      let (_, s2) = run (text "docker" ∷ text "network" ∷ text "create" ∷ text "arcnode" ∷ []) s1 in
      let (_, s3) =
        run (text "usermod" ∷ text "-aG" ∷ text "docker" ∷ account ∷ [])
          (if out.returncode == 0 then s1 else s2) in
      verify_docker s3

  -- `DockerService.apply`; `inspect_network` and `verify_docker` are those of docker_verify.py.
  unfoldable pub apply_docker :
      Text
      → (S → CommandOutput × S)
      → (S → List VerifyCheck × S)
      → Box S
      → Result PageError StepResult × Box S
  unfolding apply_page docker_work
  apply_docker account inspect_network verify_docker box =
      apply_page (text "docker") (text "Docker is already set up")
        (docker_work account inspect_network verify_docker) box
