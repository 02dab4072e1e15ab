-- ===== src/Wizard/Pages/Containers/Ends.antt =====
-- That the container pages of src/wizard/ come back.
use platform_api.Prelude.{
  Bool, List, Option, Result, Text, Unicode, [], all, answer, ap, arith, change, false, follow,
  has_infix, is_empty, map, not, pure, refl, strip, text, ℕ, ◌&&◌, ◌++◌, ◌<◌, ◌>>=◌, ◌>>◌, ◌∙◌, ◌∷◌,
  ◌≡◌, ◌≤◌,
}
use platform_api.Wizard.Machine.{Machine, await, awaited}
use platform_api.Wizard.Waiting.{compose_command, container_alive, line_logged}
use platform_api.Wizard.Waiting.Settled.{AnswersAt, Ends, IdleFor, pauses, wait_for_log-settles}
use platform_api.Wizard.Pages.{has_line, run_for, run_only}
use platform_api.Wizard.Pages.Marking.{page-answers}
use platform_api.Wizard.Pages.Containers.{
  apply_gateway, gateway_checks, gateway_service, gateway_work, logs_of, start, subscribed_line,
}
use platform_api.Wizard.Steps.{Box, StepResult, VerifyCheck, all_ok, is_done}

module _ {S : Type 0} (u : Unicode) (m : Machine S) (fuel : ℕ) (ems_dir : Text) where
  -- After the `n`-th pause the line is in the logs, or the container is gone.
  abbrev pub Settles : Text → Text → ℕ → S → Type 0
  Settles service line n s =
      let look = line_logged u m ems_dir service line in
      let alive = container_alive u m ems_dir service in
      Ends look alive m.sleep (pauses look alive m.sleep n s)

  -- The wait from `s` ended in the box `t`: at the first of the boxes up to the `n`-th pause in which the
  -- line was in the logs or the container was gone.
  abbrev pub EndedIn : Text → Text → ℕ → S → S → Type 0
  EndedIn service line n s t =
      let look = line_logged u m ems_dir service line in
      let alive = container_alive u m ems_dir service in
      (k : ℕ) × (k ≤ n)
      × IdleFor look alive m.sleep k s
      × ((found : Bool) × AnswersAt look alive m.sleep (pauses look alive m.sleep k s) found t)

  -- the box after `docker compose up`
  abbrev pub started : List Text → Text → S → S
  started options service s =
      (m.run (compose_command ems_dir (text "up" ∷ text "-d" ∷ options ++ service ∷ [])) s).1

  start-returns :
      (options : List Text) (service line : Text) (n : ℕ) (s : S)
      → Settles service line n (started options service s)
      → n < fuel
      → (t : S) × (start u m fuel ems_dir options service line s ≡ (Result.ok tt, t))
        × EndedIn service line n (started options service s) t
  unfolding start run_only change await ◌>>=◌ ◌>>◌ pure
  start-returns options service line n s h l =
      let (k, le, idle, (found, t, answer, e)) =
        wait_for_log-settles u m ems_dir service line n (started options service s) h in
      (
        t,
        ap (λ (r : Option Bool × S). follow (awaited r) (λ ready. pure {S = S} (tt {0})))
            (e fuel (omega (arith, l, le))),
        (k, le, idle, (found, answer)),
      )

  -- What docker says of the gateway in a box: whether it is up, and then whether its logs hold two lines.
  pub gateway_answers : S → List Bool
  gateway_answers t =
      let (up, logged) =
        m.run
          (compose_command ems_dir
            (text "ps" ∷ text "-q" ∷ text "--status" ∷ text "running" ∷ gateway_service ∷ []))
          t in
      let (logs, end) =
        m.run (compose_command ems_dir (text "logs" ∷ gateway_service ∷ [])) logged in
      not (is_empty (strip u.is_space up.stdout))
      ∷ has_infix logs.stdout (text "initial spec fetched")
      ∷ has_infix logs.stdout (text "MQTT subscriptions established")
      ∷ []

  abbrev answers_of : List VerifyCheck → List Bool
  answers_of checks = map (λ (c : VerifyCheck). c.ok) checks

  all_ok-answers : (checks : List VerifyCheck) → all_ok checks ≡ all (λ b. b) (answers_of checks)
  all_ok-answers [] = refl
  all_ok-answers (c ∷ checks) = ap (λ b. c.ok && b) (all_ok-answers checks)

  gateway_work-returns :
      (n : ℕ) (s : S)
      → Settles gateway_service subscribed_line n (started [] gateway_service s)
      → n < fuel
      → (checks : List VerifyCheck) × (end : S) × (gateway_work u m fuel ems_dir s
          ≡ (Result.ok checks, end))
        × ((t : S) × EndedIn gateway_service subscribed_line n (started [] gateway_service s) t
            × (answers_of checks ≡ gateway_answers t))
  unfolding gateway_work gateway_checks gateway_answers logs_of has_line run_for answer ◌>>=◌ ◌>>◌
      pure
  gateway_work-returns n s h l =
      let (t, e, ended) = start-returns [] gateway_service subscribed_line n s h l in
      (_, _, ap (λ r. follow r (λ _. gateway_checks u m fuel ems_dir)) e, (t, ended, refl))

  -- The gateway's page comes back where it is not done and its container, once started, logs its
  -- subscription or is gone after fewer pauses than its fuel. It then answers what docker says of the
  -- gateway in the first box in which that was so: whether the container runs, and whether the logs
  -- hold the fetched spec and the subscription. Its marker stands exactly if all three are so.
  pub apply_gateway-returns :
      (n : ℕ) (box : Box S)
      → is_done (text "industrial_gateway") box.markers ≡ false
      → Settles gateway_service subscribed_line n (started [] gateway_service box.system)
      → n < fuel
      → (result : StepResult) × ((apply_gateway u m fuel ems_dir box).0 ≡ Result.ok result)
        × ((t : S) × EndedIn gateway_service subscribed_line n
              (started [] gateway_service box.system)
              t
            × (map (λ (c : VerifyCheck). c.ok) result.checks ≡ gateway_answers t))
        × (is_done (text "industrial_gateway") (apply_gateway u m fuel ems_dir box).1.markers
            ≡ all (λ b. b) (map (λ (c : VerifyCheck). c.ok) result.checks))
  unfolding apply_gateway
  apply_gateway-returns n box d h l =
      let (checks, end, e, answers) = gateway_work-returns n box.system h l in
      let (answered, marked) =
        page-answers (text "industrial_gateway") (text "Industrial gateway is already set up")
          (gateway_work u m fuel ems_dir) box checks end d e in
      (
        record { verified = all_ok checks; checks = checks },
        answered,
        answers,
        marked ∙ all_ok-answers checks,
      )
