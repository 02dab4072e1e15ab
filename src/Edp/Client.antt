-- ===== src/Edp/Client.antt =====
-- src/edp_client/edp_client_service.py: a job is submitted, then asked for until it has ended.
pub mod Ends
use platform_api.Prelude.{Option, Result, Text, err, if◌then◌else◌, ltb, ok, suc, zero, ℕ, ◌+◌}
use platform_api.Edp.Artifacts.{JobCreated, JobResult, JobStatus, complete, failed, running}

-- the exceptions: the HTTP client's, or the service's own; `out_of_fuel` is the model's.
pub data PollError (X : Type 0) : Type 0 where
  raised : X → PollError X
  job_failed : Text → Option Text → PollError X
  timed_out out_of_fuel : PollError X

-- `S` is the state of the service and of the clock, `now` the loop's clock in ticks, `post_job` and
-- `get_job` the two calls with their checks, and `sleep` the wait of `interval` ticks between two polls.
module _ {S X : Type 0} (now : S → ℕ) (post_job : Text → S → Result X JobCreated × S)
    (get_job : Text → S → Result X JobResult × S) (sleep : S → S) where
  -- a job's state, and what follows from it
  pub ended :
      Text
      → JobResult
      → JobStatus
      → S
      → (S → Result (PollError X) JobResult × S)
      → Result (PollError X) JobResult × S
  ended job_id body running s again = again (sleep s)
  ended job_id body complete s again = (ok body, s)
  ended job_id body failed s again = (err (job_failed job_id body.error), s)

  -- what a poll's answer leads to; `again` is the rest of the loop
  pub answered :
      Text
      → Result X JobResult × S
      → (S → Result (PollError X) JobResult × S)
      → Result (PollError X) JobResult × S
  unfolding ended
  answered job_id (err e, s) again = (err (raised e), s)
  answered job_id (ok body, s) again = ended job_id body body.status s again

  unfoldable pub poll : ℕ → Text → ℕ → S → Result (PollError X) JobResult × S
  unfolding answered
  poll zero job_id deadline s = (err out_of_fuel, s)
  poll (suc fuel) job_id deadline s =
      let asked = answered job_id (get_job job_id s) (poll fuel job_id deadline) in
      if ltb (now s) deadline then asked else (err timed_out, s)

  -- `timeout` is POLL_TIMEOUT_SECONDS in ticks
  unfoldable pub submit_and_wait : ℕ → ℕ → Text → S → Result (PollError X) JobResult × S
  unfolding poll
  submit_and_wait fuel timeout payload s =
      let (created, s') = post_job payload s in
      elim created [
        | err e ↦ (err (raised e), s')
        | ok job ↦ poll fuel job.job_id (now s' + timeout) s'
      ]
