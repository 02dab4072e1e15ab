-- ===== src/Edp/Examples.antt =====
-- A run of src/edp_client/edp_client_service.py against a job that takes three asks.
use platform_api.Prelude.{
  Result, Text, [], arith, if◌then◌else◌, ltb, none, ok, refl, text, ℕ, ◌+◌, ◌≡◌,
}
use platform_api.Edp.Artifacts.{JobCreated, JobResult, JobStatus, complete, running}
use platform_api.Edp.Client.{submit_and_wait}
use platform_api.Edp.Client.Ends.{HasEnded, submit_and_wait-HasEnded}

abbrev job_body : JobStatus → JobResult
job_body status = record { status = status; edp_artifact_urls = []; error = none }

-- the state is the clock
abbrev clock : ℕ → ℕ
clock s = s

abbrev start_job : Text → ℕ → Result (Unit {0}) JobCreated × ℕ
start_job payload s =
    (ok (record { job_id = text "7"; status_url = text "/jobs/7"; edp_artifact_urls = [] }), s)

abbrev ask_job : Text → ℕ → Result (Unit {0}) JobResult × ℕ
ask_job job_id s = (ok (job_body (if ltb s 3 then running else complete)), s)

abbrev rest_a_tick : ℕ → ℕ
rest_a_tick s = s + 1

submit_and_wait-HasEnded_example :
    HasEnded clock ask_job rest_a_tick 1 start_job
      (clock (start_job (text "{}") 0).1 + 5)
      (submit_and_wait clock start_job ask_job rest_a_tick 6 5 (text "{}") 0)
submit_and_wait-HasEnded_example =
    submit_and_wait-HasEnded clock ask_job rest_a_tick 1 start_job (λ job_id s. omega arith)
      (λ s. omega arith) 5 5 (text "{}") 0 (omega arith)

waited_three : (submit_and_wait clock start_job ask_job rest_a_tick 6 5 (text "{}") 0).1 ≡ 3
unfolding submit_and_wait
waited_three = refl
