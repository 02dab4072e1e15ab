-- ===== src/Wizard/Pages/Keeping.antt =====
-- What the waits of the pages of src/wizard/ keep.
use platform_api.Prelude.{
  Bool, Keeps, Keeps-answer, Keeps-change, List, Option, Text, Unicode, [], false, none, some, suc,
  text, true, zero, ℕ, ◌∷◌,
}
use platform_api.Wizard.Machine.{Command, Machine, await, awaited, plain}
use platform_api.Wizard.Waiting.{
  after_alive, after_look, compose_command, container_alive, line_logged, round, state_of,
  unless_ended, wait_for_log, wait_until,
}
use platform_api.Wizard.Pages.{run_for, run_only}

module _ {S : Type 0} (P : S → Type 0) where
  pub Keeps-await :
      {A : Type 0} (f : S → Option A × S) → ((s : S) → P s → P (f s).1) → Keeps P (await f)
  unfolding await
  Keeps-await {A = A} f k = record { kept = λ s h. go (f s) (k s h) }
    where
      go : (r : Option A × S) → P r.1 → P (awaited r).1
      go (some a, s) h = h
      go (none, s) h = h

  unless-kept :
      (r : Option Bool × S) (rest : S → Option Bool × S)
      → P r.1
      → ((s : S) → P s → P (rest s).1)
      → P (unless_ended r rest).1
  unless-kept (some b, s) rest h k = h
  unless-kept (none, s) rest h k = k s h

  after_alive-kept :
      (look alive : S → Bool × S) (sleep : S → S) (r : Bool × S)
      → ((s : S) → P s → P (sleep s))
      → P r.1
      → P (after_alive look alive sleep r).1
  after_alive-kept look alive sleep (true, s) z h = z s h
  after_alive-kept look alive sleep (false, s) z h = h

  after_look-kept :
      (look alive : S → Bool × S) (sleep : S → S) (r : Bool × S)
      → ((s : S) → P s → P (alive s).1)
      → ((s : S) → P s → P (sleep s))
      → P r.1
      → P (after_look look alive sleep r).1
  after_look-kept look alive sleep (true, s) a z h = h
  after_look-kept look alive sleep (false, s) a z h =
      after_alive-kept look alive sleep (alive s) z (a s h)

  -- The loop keeps what its two questions and its sleep keep.
  pub wait_until-kept :
      (look alive : S → Bool × S) (sleep : S → S)
      → ((s : S) → P s → P (look s).1)
      → ((s : S) → P s → P (alive s).1)
      → ((s : S) → P s → P (sleep s))
      → (fuel : ℕ) (s : S) → P s
      → P (wait_until look alive sleep fuel s).1
  unfolding wait_until round
  wait_until-kept look alive sleep l a z zero s h = h
  wait_until-kept look alive sleep l a z (suc fuel) s h =
      unless-kept (round look alive sleep s) (wait_until look alive sleep fuel)
        (after_look-kept look alive sleep (look s) a z (l s h))
        (wait_until-kept look alive sleep l a z fuel)

-- the three commands of a wait
abbrev pub read_logs : Text → Text → Command
read_logs ems_dir service = compose_command ems_dir (text "logs" ∷ service ∷ [])

abbrev pub list_containers : Text → Text → Command
list_containers ems_dir service =
    compose_command ems_dir (text "ps" ∷ text "-q" ∷ text "-a" ∷ service ∷ [])

abbrev pub inspect_container : Text → Command
inspect_container container =
    plain
      (text "docker" ∷ text "inspect" ∷ text "--format" ∷ text "{{.State.Status}}" ∷ container ∷ [])

module _ {S : Type 0} (u : Unicode) (m : Machine S) (P : S → Type 0) where
  pub Keeps-run_for :
      (command : Command) → ((s : S) → P s → P (m.run command s).1) → Keeps P (run_for u m command)
  unfolding run_for
  Keeps-run_for command k = Keeps-answer P (m.run command) k

  pub Keeps-run_only :
      (command : Command) → ((s : S) → P s → P (m.run command s).1) → Keeps P (run_only u m command)
  unfolding run_only
  Keeps-run_only command k = Keeps-change P (λ s. (m.run command s).1) k

  state_of-kept :
      (ems_dir service : Text)
      → ((container : Text) (s : S) → P s → P (m.run (inspect_container container) s).1)
      → (found : List Text) (s : S) → P s
      → P (state_of u m ems_dir service found s).1
  state_of-kept ems_dir service k [] s h = h
  state_of-kept ems_dir service k (container ∷ others) s h = k container s h

  -- A wait for a log line runs three commands, over and over.
  pub Keeps-wait_for_log :
      (ems_dir service line : Text) (fuel : ℕ)
      → ((s : S) → P s → P (m.run (read_logs ems_dir service) s).1)
      → ((s : S) → P s → P (m.run (list_containers ems_dir service) s).1)
      → ((container : Text) (s : S) → P s → P (m.run (inspect_container container) s).1)
      → ((s : S) → P s → P (m.sleep s))
      → Keeps P (await (wait_for_log u m ems_dir service line fuel))
  unfolding wait_for_log line_logged container_alive
  Keeps-wait_for_log ems_dir service line fuel logs listed inspected z =
      Keeps-await P (wait_for_log u m ems_dir service line fuel) (
        wait_until-kept P (line_logged u m ems_dir service line)
          (container_alive u m ems_dir service) m.sleep (λ s. logs s)
          (λ s h. state_of-kept ems_dir service inspected _ _ (listed s h)) z fuel)
