-- ===== src/Orchestrator/Run/Settled.antt =====
-- `execute` of src/orchestrator/orchestrator_service.py, over a database that takes every row.
use platform_api.Prelude.{Result, Text, ap, inl, inr, ok, subst, sym, ◌∙◌, ◌∷◌, ◌≡◌, ◌⊎◌}
use platform_api.Orders.Records.{ConfiguratorPayload, Order, OrderStatus}
use platform_api.Orchestrator.Effects.{Failure, World, bind, continue}
use platform_api.Orchestrator.Services.{Services, Settings}
use platform_api.Orchestrator.Run.{
  PipelineResult, after_failure, completed_with, execute, failed_at, failed_mail, mark_complete,
  ready_mail, run_pipeline, settle, with_status,
}
use platform_api.Orchestrator.Run.Outcome.{
  Completed, Failed, PipelineEnd, after_failure-ends, mark_complete-saves, run_pipeline-ends,
}
use platform_api.Orchestrator.Effects.Outcomes.{saved-ok}

-- the order as `execute` saves it first
abbrev pub started : Order → Order
started order = with_status order OrderStatus.running

-- the world in which the pipeline starts
abbrev pub begun : {S X : Type 0} → Services S X → Order → World S → World S
begun services order w = record {
  services = (services.write_row (started order) w.services).1;
  saves = started order ∷ w.saves;
  mails = w.mails;
}

module _ {S X : Type 0} (services : Services S X) (settings : Settings)
    (writes : (order : Order) (s : S) → (services.write_row order s).0 ≡ ok tt) where
  abbrev Ends : Order → World S → World S → Type 0
  Ends order w v = Completed services settings order w v ⊎ Failed services settings order w v

  completed :
      (order : Order) (w v : World S) (payload : ConfiguratorPayload) (result : PipelineResult)
      (url : Text)
      → services.validate_payload order.payload ≡ ok payload
      → result.deployment_uuid ≡ order.id
      → v.saves ≡ w.saves
      → v.mails ≡ ready_mail payload url ∷ w.mails
      → Completed services settings order w (mark_complete services settings order result v).1
  completed order w v payload result url valid same saves mails =
      let (when, p, q) = mark_complete-saves services settings writes order result v in
      (
        payload,
        result,
        url,
        when,
        valid,
        same,
        p ∙ ap (λ os. completed_with order result when ∷ os) saves,
        q ∙ mails,
      )

  not_completed :
      (order : Order) (w v : World S)
      → v.saves ≡ w.saves
      → v.mails ≡ w.mails
      → Failed services settings order w (after_failure services settings order v).1
  not_completed order w v saves mails =
      let (when, p, ends) = after_failure-ends services settings writes order v in
      (
        when,
        p ∙ ap (λ os. failed_at order when ∷ os) saves,
        elim ends [
          | inl q ↦ inl (q ∙ mails)
          | inr (payload, valid, q) ↦
              inr (payload, valid, q ∙ ap (λ ms. failed_mail payload order.id ∷ ms) mails)
        ],
      )

  settled :
      (order : Order) (w : World S) (o : Result (Failure X) PipelineResult × World S)
      → PipelineEnd services settings order w o
      → Ends order w (settle services settings order o).1
  unfolding settle
  settled order w o (inl (payload, result, url, v, e, valid, same, saves, mails)) =
      subst (λ p. Ends order w (settle services settings order p).1) (sym e)
        (inl (completed order w v payload result url valid same saves mails))
  settled order w o (inr (f, v, e, saves, mails)) =
      subst (λ p. Ends order w (settle services settings order p).1) (sym e)
        (inr (not_completed order w v saves mails))

  execute-Ends :
      (order : Order) (w : World S)
      → Ends (started order) (begun services order w) (execute services settings order w).1
  unfolding execute bind
  execute-Ends order w =
      subst
        (λ o.
          Ends (started order) (begun services order w)
            (continue o λ _ v.
              settle services settings (started order)
                (run_pipeline services settings (started order) v)).1)
        (sym (
          saved-ok (started order) (services.write_row (started order) w.services) w
            (writes (started order) w.services)))
        (settled (started order) (begun services order w)
          (run_pipeline services settings (started order) (begun services order w))
          (run_pipeline-ends services settings (started order) (begun services order w)))

-- With a database that takes every row, `execute` saves the order twice and no more: first as
-- running, then as complete or as failed. Where it is complete, the payload is valid, the row carries
-- the order's id as its deployment, and one mail was sent, the ready mail to the payload's contact.
-- Where it is failed, no mail was sent but at most the one that tells the contact of the failure.
pub execute-settles :
    {S X : Type 0} (services : Services S X) (settings : Settings)
    → ((row : Order) (s : S) → (services.write_row row s).0 ≡ ok tt)
    → (order : Order) (w : World S)
    → Completed services settings
        (started order)
        (begun services order w)
        (execute services settings order w).1
      ⊎ Failed services settings
          (started order)
          (begun services order w)
          (execute services settings order w).1
execute-settles services settings writes order w = execute-Ends services settings writes order w
