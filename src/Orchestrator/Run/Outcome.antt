-- ===== src/Orchestrator/Run/Outcome.antt =====
-- How `execute` of src/orchestrator/orchestrator_service.py ends: the rows that are saved and the
-- mails that are sent.
use platform_api.Prelude.{
  Result, Text, ap, arith, err, inl, inr, ok, refl, subst, sym, ◌∙◌, ◌∷◌, ◌≡◌, ◌⊎◌,
}
use platform_api.Orders.Records.{ConfiguratorPayload, Order}
use platform_api.Orchestrator.Effects.{
  Action, Failure, World, bind, continue, done, failing, reading,
}
use platform_api.Orchestrator.Effects.Quiet.{
  IsQuiet, IsQuiet-bind, IsQuiet-done, IsQuiet-service, IsSame,
}
use platform_api.Orchestrator.Effects.Outcomes.{bind-ok, done-ok, failing-ok, saved-ok, sent-ends}
use platform_api.Orchestrator.Services.{Services, Settings}
use platform_api.Orchestrator.Delivery.Quiet.{IsQuiet-archive, IsQuiet-build_delivery}
use platform_api.Orchestrator.Publish.Quiet.{IsQuiet-publish_portal}
use platform_api.Orchestrator.Run.{
  PipelineResult, after_failure, completed_with, failed_at, failed_mail, mark_complete, mark_failed,
  prepare, ready_mail, run_pipeline, save, send, setup_aws, validated,
}

module _ {S X : Type 0} (services : Services S X) (settings : Settings) where
  IsQuiet-validated : (order : Order) → IsQuiet (validated services settings order)
  IsQuiet-validated order = record { same = λ w. (refl, refl) }

  IsQuiet-prepare : (order : Order) → IsQuiet (prepare services settings order)
  unfolding prepare setup_aws
  IsQuiet-prepare order =
      IsQuiet-bind _ _ (IsQuiet-bind _ _ (IsQuiet-service _) λ _. IsQuiet-service _) λ _.
        IsQuiet-bind _ _ (IsQuiet-validated order) λ payload.
          IsQuiet-bind _ _ (IsQuiet-service _) λ edp.
            IsQuiet-bind _ _ (IsQuiet-archive services settings order.id edp) λ archived.
              IsQuiet-bind _ _ (IsQuiet-build_delivery services settings order.id payload archived)
                λ delivery.
                  IsQuiet-bind _ _
                    (IsQuiet-publish_portal services settings order.id payload archived delivery)
                    λ url. IsQuiet-done _ _

  -- A result is for the order's payload and carries the order's id.
  prepare-answer :
      (order : Order) (w v : World S) (payload : ConfiguratorPayload) (result : PipelineResult)
      (url : Text)
      → prepare services settings order w ≡ (ok (payload, result, url), v)
      → (services.validate_payload order.payload ≡ ok payload) × (result.deployment_uuid ≡ order.id)
  unfolding prepare
  prepare-answer order w v payload result url h =
      let (_, w1, _, h1) = bind-ok _ _ w (payload, result, url) v h in
      let (p, w2, e2, h2) = bind-ok _ _ w1 (payload, result, url) v h1 in
      let (edp, w3, _, h3) = bind-ok _ _ w2 (payload, result, url) v h2 in
      let (archived, w4, _, h4) = bind-ok _ _ w3 (payload, result, url) v h3 in
      let (delivery, w5, _, h5) = bind-ok _ _ w4 (payload, result, url) v h4 in
      let (link, w6, _, h6) = bind-ok _ _ w5 (payload, result, url) v h5 in
      let same = done-ok _ (payload, result, url) w6 v h6 in
      (
        failing-ok _ p w1 w2 e2 ∙ ap ok (ap (λ x. x.0) same),
        sym (ap (λ x. x.1.deployment_uuid) same),
      )

  -- How an order ends that is `started` in the world `w`.
  abbrev pub Completed : Order → World S → World S → Type 0
  Completed started w v =
      (payload : ConfiguratorPayload) × (result : PipelineResult) × (url : Text) × (when : Text)
      × (services.validate_payload started.payload ≡ ok payload)
      × (result.deployment_uuid ≡ started.id)
      × (v.saves ≡ completed_with started result when ∷ w.saves)
      × (v.mails ≡ ready_mail payload url ∷ w.mails)

  abbrev pub Failed : Order → World S → World S → Type 0
  Failed started w v =
      (when : Text) × (v.saves ≡ failed_at started when ∷ w.saves)
      × ((v.mails ≡ w.mails)
          ⊎ ((payload : ConfiguratorPayload) × (services.validate_payload started.payload
                ≡ ok payload)
              × (v.mails ≡ failed_mail payload started.id ∷ w.mails)))

  abbrev pub PipelineEnd : Order → World S → Result (Failure X) PipelineResult × World S → Type 0
  PipelineEnd order w o =
      ((payload : ConfiguratorPayload) × (result : PipelineResult) × (url : Text) × (v : World S)
        × (o ≡ (ok result, v))
        × (services.validate_payload order.payload ≡ ok payload)
        × (result.deployment_uuid ≡ order.id)
        × (v.saves ≡ w.saves)
        × (v.mails ≡ ready_mail payload url ∷ w.mails))
      ⊎ ((e : Failure X) × (v : World S) × (o ≡ (err e, v))
          × (v.saves ≡ w.saves)
          × (v.mails ≡ w.mails))

  mailed :
      (order : Order) (w v : World S) (payload : ConfiguratorPayload) (result : PipelineResult)
      (url : Text) (o : Result (Failure X) (Unit {0}) × World S)
      → services.validate_payload order.payload ≡ ok payload
      → result.deployment_uuid ≡ order.id
      → v.saves ≡ w.saves
      → v.mails ≡ w.mails
      → (o.1.saves ≡ v.saves)
        × (((o.0 ≡ ok tt) × (o.1.mails ≡ ready_mail payload url ∷ v.mails))
            ⊎ ((e : Failure X) × (o.0 ≡ err e) × (o.1.mails ≡ v.mails)))
      → PipelineEnd order w (continue o λ _. done result)
  unfolding done
  mailed order w v payload result url (ok u, x) valid same saves mails (p, inl (q, r)) = inl (
    payload,
    result,
    url,
    x,
    refl,
    valid,
    same,
    p ∙ saves,
    r ∙ ap (λ ms. ready_mail payload url ∷ ms) mails,
  )
  mailed order w v payload result url (ok u, x) valid same saves mails (p, inr (e, q, r)) =
      absurd (ground arith)
  mailed order w v payload result url (err e, x) valid same saves mails (p, inl (q, r)) =
      absurd (ground arith)
  mailed order w v payload result url (err e, x) valid same saves mails (p, inr (_, q, r)) =
      inr (e, x, refl, p ∙ saves, r ∙ mails)

  piped :
      (order : Order) (w : World S)
      (o : Result (Failure X) (ConfiguratorPayload × PipelineResult × Text) × World S)
      → prepare services settings order w ≡ o
      → IsSame w o
      → PipelineEnd order w (
          continue o λ (payload, result, url).
            bind (send services settings (ready_mail payload url)) λ _. done result)
  unfolding bind
  piped order w (ok (payload, result, url), v) e (saves, mails) =
      let (valid, same) = prepare-answer order w v payload result url e in
      mailed order w v payload result url (send services settings (ready_mail payload url) v) valid
        same saves mails
        (sent-ends (ready_mail payload url)
          (services.send_delivery_email (ready_mail payload url) v.services) v)
  piped order w (err x, v) e (saves, mails) = inr (x, v, refl, saves, mails)

  pub run_pipeline-ends :
      (order : Order) (w : World S) → PipelineEnd order w (run_pipeline services settings order w)
  unfolding run_pipeline bind
  run_pipeline-ends order w =
      piped order w (prepare services settings order w) refl ((IsQuiet-prepare order).same w)

  module _ (writes : (order : Order) (s : S) → (services.write_row order s).0 ≡ ok tt) where
    pub save-writes :
        (order : Order) (w : World S)
        → ((save services settings order w).1.saves ≡ order ∷ w.saves)
          × ((save services settings order w).1.mails ≡ w.mails)
          × ((save services settings order w).0 ≡ ok tt)
    save-writes order w =
        rw (saved-ok order (services.write_row order w.services) w (writes order w.services))
          (refl, refl, refl)

    pub mark_complete-saves :
        (order : Order) (result : PipelineResult) (v : World S)
        → (when : Text) × ((mark_complete services settings order result v).1.saves
            ≡ completed_with order result when ∷ v.saves)
          × ((mark_complete services settings order result v).1.mails ≡ v.mails)
    unfolding mark_complete bind reading
    mark_complete-saves order result v =
        let (when, s) = services.now v.services in
        let (p, q, _) =
          save-writes (completed_with order result when)
            (record { services = s; saves = v.saves; mails = v.mails }) in
        (when, p, q)

    mark_failed-saves :
        (order : Order) (v : World S)
        → (when : Text) × (u : World S) × (mark_failed services settings order v ≡ (ok tt, u))
          × (u.saves ≡ failed_at order when ∷ v.saves)
          × (u.mails ≡ v.mails)
    unfolding mark_failed bind reading
    mark_failed-saves order v =
        let (when, s) = services.now v.services in
        (
          when,
          _,
          saved-ok (failed_at order when) (services.write_row (failed_at order when) s)
              (record { services = s; saves = v.saves; mails = v.mails }) (writes _ s),
          refl,
          refl,
        )

    -- The mail of a failure, from the world in which the row was saved.
    notify : Order → Action S X (Unit {0})
    notify order =
        bind (validated services settings order)
          λ payload. send services settings (failed_mail payload order.id)

    notified :
        (order : Order) (w u : World S) (r : Result X ConfiguratorPayload) (when : Text)
        → services.validate_payload order.payload ≡ r
        → u.saves ≡ failed_at order when ∷ w.saves
        → u.mails ≡ w.mails
        → Failed order w
            (continue {A = ConfiguratorPayload}
              (failing r, u)
              λ payload. send services settings (failed_mail payload order.id)).1
    notified order w u (err e) when valid saves mails = (when, saves, inl mails)
    notified order w u (ok payload) when valid saves mails =
        let (same, ends) =
          sent-ends (failed_mail payload order.id)
            (services.send_delivery_email (failed_mail payload order.id) u.services) u in
        (
          when,
          same ∙ saves,
          elim ends [
            | inl (_, r) ↦
                inr (payload, valid, r ∙ ap (λ ms. failed_mail payload order.id ∷ ms) mails)
            | inr (e, _, r) ↦ inl (r ∙ mails)
          ],
        )

    pub after_failure-ends :
        (order : Order) (w : World S) → Failed order w (after_failure services settings order w).1
    unfolding after_failure bind notify
    after_failure-ends order w =
        let (when, u, e, saves, mails) = mark_failed-saves order w in
        subst (λ o. Failed order w (continue o λ _. notify order).1) (sym e)
          (notified order w u (services.validate_payload order.payload) when refl saves mails)
