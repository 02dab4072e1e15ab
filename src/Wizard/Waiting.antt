-- ===== src/Wizard/Waiting.antt =====
-- src/wizard/containers_compose.py, and the loop that it shares with the bolt gate of neo4j_service.py.
pub mod Settled
use platform_api.Prelude.{
  Bool, List, Option, Text, Unicode, [], contains, false, has_infix, none, some, strip, suc, text,
  true, zero, ℕ, ◌∷◌,
}
use platform_api.Wizard.Machine.{Command, Machine, child_path, plain, words}

abbrev compose_file : Text
compose_file = text "docker-compose.yaml"

abbrev pub onprem_override_file : Text
onprem_override_file = text "docker-compose.onprem.yaml"

unfoldable pub compose_command : Text → List Text → Command
compose_command ems_dir args = plain (
    text "docker"
    ∷ text "compose"
    ∷ text "-f"
    ∷ child_path ems_dir compose_file
    ∷ text "-f"
    ∷ child_path ems_dir onprem_override_file
    ∷ args)

-- The states of Docker that are not the end of a container.
abbrev alive_states : List Text
alive_states = text "created" ∷ text "running" ∷ text "restarting" ∷ []

abbrev pub unless_ended : {S : Type 0} → Option Bool × S → (S → Option Bool × S) → Option Bool × S
unless_ended (some b, s) rest = (some b, s)
unless_ended (none, s) rest = rest s

-- A loop that looks, gives up where what it waits for is gone, and sleeps.
module _ {S : Type 0} (look alive : S → Bool × S) (sleep : S → S) where
  abbrev pub after_alive : Bool × S → Option Bool × S
  after_alive (true, s) = (none, sleep s)
  after_alive (false, s) = (some false, s)

  abbrev pub after_look : Bool × S → Option Bool × S
  after_look (true, s) = (some true, s)
  after_look (false, s) = after_alive (alive s)

  -- one round, with the loop's answer where the round ends it
  unfoldable pub round : S → Option Bool × S
  round s = after_look (look s)

  -- the loop, on fuel
  unfoldable pub wait_until : ℕ → S → Option Bool × S
  wait_until zero s = (none, s)
  wait_until (suc fuel) s = unless_ended (round s) (wait_until fuel)

module _ {S : Type 0} (u : Unicode) (m : Machine S) (ems_dir service : Text) where
  abbrev pub state_of : List Text → S → Bool × S
  state_of [] s = (false, s)
  state_of (container ∷ others) s =
      let (state, t) =
        m.run
          (plain (
            text "docker"
            ∷ text "inspect"
            ∷ text "--format"
            ∷ text "{{.State.Status}}"
            ∷ container
            ∷ []))
          s in
      (contains (strip u.is_space state.stdout) alive_states, t)

  unfoldable pub container_alive : S → Bool × S
  unfolding compose_command
  container_alive s =
      let (out, t) =
        m.run (compose_command ems_dir (text "ps" ∷ text "-q" ∷ text "-a" ∷ service ∷ [])) s in
      state_of (words u.is_space out.stdout) t

  -- whether the service's logs hold the line
  unfoldable pub line_logged : Text → S → Bool × S
  unfolding compose_command
  line_logged line s =
      let (out, t) = m.run (compose_command ems_dir (text "logs" ∷ service ∷ [])) s in
      (has_infix out.stdout line, t)

  unfoldable pub wait_for_log : Text → ℕ → S → Option Bool × S
  unfolding wait_until
  wait_for_log line = wait_until (line_logged line) container_alive m.sleep
