-- ===== src/Edp/Client/Ends.antt =====
-- How the polling loop of src/edp_client/edp_client_service.py ends.
use platform_api.Prelude.{
  Bool-cases, Result, Text, arith, err, false, if◌then◌else◌, inl, inr, ltb, ltb→lt, ok, refl, suc,
  zero, ℕ, ◌*◌, ◌+◌, ◌<◌, ◌≡◌, ◌≤◌,
}
use platform_api.Edp.Artifacts.{JobCreated, JobResult, JobStatus, complete, failed, running}
use platform_api.Edp.Client.{
  PollError, answered, ended, job_failed, out_of_fuel, poll, raised, submit_and_wait, timed_out,
}

ltb-false→le : (a b : ℕ) → ltb a b ≡ false → b ≤ a
ltb-false→le a b h = ground arith

module _ {S X : Type 0} (now : S → ℕ) (get_job : Text → S → Result X JobResult × S) (sleep : S → S)
    (interval : ℕ) (post_job : Text → S → Result X JobCreated × S) where
  -- An ended job's result, the failure that it reports, a timeout after the deadline, or an exception
  -- of the HTTP client.
  abbrev pub HasEnded : ℕ → Result (PollError X) JobResult × S → Type 0
  HasEnded deadline (ok body, s) = body.status ≡ complete
  HasEnded deadline (err (raised e), s) = Unit
  HasEnded deadline (err (job_failed job_id e), s) = Unit
  HasEnded deadline (err timed_out, s) = deadline ≤ now s
  HasEnded deadline (err out_of_fuel, s) = ⊥

  module _ (asks : (job_id : Text) (s : S) → now s ≤ now (get_job job_id s).1)
      (sleeps : (s : S) → now s + interval ≤ now (sleep s)) where
    ended-HasEnded :
        (job_id : Text) (deadline : ℕ) (body : JobResult) (status : JobStatus) (s : S)
        (again : S → Result (PollError X) JobResult × S)
        → body.status ≡ status
        → HasEnded deadline (again (sleep s))
        → HasEnded deadline (ended now post_job get_job sleep job_id body status s again)
    unfolding ended
    ended-HasEnded job_id deadline body running s again e h = h
    ended-HasEnded job_id deadline body complete s again e h = e
    ended-HasEnded job_id deadline body failed s again e h = tt

    answered-HasEnded :
        (job_id : Text) (deadline : ℕ) (r : Result X JobResult × S)
        (again : S → Result (PollError X) JobResult × S)
        → HasEnded deadline (again (sleep r.1))
        → HasEnded deadline (answered now post_job get_job sleep job_id r again)
    unfolding answered
    answered-HasEnded job_id deadline (err e, s) again h = tt
    answered-HasEnded job_id deadline (ok body, s) again h =
        ended-HasEnded job_id deadline body body.status s again refl h

    turn-HasEnded :
        (job_id : Text) (deadline : ℕ) (s : S) (again : S → Result (PollError X) JobResult × S)
        → (now s < deadline → HasEnded deadline (again (sleep (get_job job_id s).1)))
        → HasEnded deadline (
            if ltb (now s) deadline
            then answered now post_job get_job sleep job_id (get_job job_id s) again
            else (err timed_out, s))
    turn-HasEnded job_id deadline s again h = elim (Bool-cases (ltb (now s) deadline)) [
      | inr e ↦ rw e (ltb-false→le (now s) deadline e)
      | inl e ↦ rw e (
          answered-HasEnded job_id deadline (get_job job_id s) again
            (h (ltb→lt (now s) deadline e)))
    ]

    poll-HasEnded :
        (fuel : ℕ) (job_id : Text) (deadline : ℕ) (s : S)
        → deadline ≤ now s + interval * fuel
        → HasEnded deadline (poll now post_job get_job sleep (suc fuel) job_id deadline s)
    unfolding poll
    poll-HasEnded zero job_id deadline s h =
        turn-HasEnded job_id deadline s (poll now post_job get_job sleep zero job_id deadline)
          λ l. absurd (omega arith)
    poll-HasEnded (suc n) job_id deadline s h =
        turn-HasEnded job_id deadline s (poll now post_job get_job sleep (suc n) job_id deadline)
          λ l.
            poll-HasEnded n job_id deadline (sleep (get_job job_id s).1)
              (omega (arith, asks job_id s, sleeps (get_job job_id s).1))

-- Where polling and sleeping do not turn the clock back, and a sleep takes at least the interval, a
-- fuel for as many sleeps as the timeout holds is enough: `submit_and_wait` returns a job that is
-- complete, or raises: the job's failure, the HTTP client's exception or, with the deadline of the job
-- passed, the timeout.
pub submit_and_wait-HasEnded :
    {S X : Type 0} (now : S → ℕ) (get_job : Text → S → Result X JobResult × S) (sleep : S → S)
    (interval : ℕ) (post_job : Text → S → Result X JobCreated × S)
    → ((job_id : Text) (s : S) → now s ≤ now (get_job job_id s).1)
    → ((s : S) → now s + interval ≤ now (sleep s))
    → (fuel timeout : ℕ) (payload : Text) (s : S) → timeout ≤ interval * fuel
    → HasEnded now get_job sleep interval post_job
        (now (post_job payload s).1 + timeout)
        (submit_and_wait now post_job get_job sleep (suc fuel) timeout payload s)
unfolding submit_and_wait
submit_and_wait-HasEnded now get_job sleep interval post_job asks sleeps fuel timeout payload s h =
    submitted (post_job payload s)
  where
    submitted :
        (o : Result _ JobCreated × _)
        → HasEnded now get_job sleep interval post_job (now o.1 + timeout) (elim o.0 [
          | err e ↦ (err (raised e), o.1)
          | ok job ↦ poll now post_job get_job sleep (suc fuel) job.job_id (now o.1 + timeout) o.1
        ])
    submitted (err e, t) = tt
    submitted (ok job, t) =
        poll-HasEnded now get_job sleep interval post_job asks sleeps fuel job.job_id
          (now t + timeout) t (omega arith)
