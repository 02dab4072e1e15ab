-- ===== src/Orchestrator/Run.antt =====
-- src/orchestrator/orchestrator_service.py: `execute`, its pipeline, its mails and the status
-- transitions.
pub mod Outcome
pub mod Settled
use platform_api.Prelude.{List, Result, Text, err, ok, some, text, ◌++◌}
use platform_api.Edp.Artifacts.{ArtifactRef, JobResult}
use platform_api.Manifest.Build.{refs_of}
use platform_api.Orders.Records.{ConfiguratorPayload, Order, OrderEmsDelivery, OrderStatus}
use platform_api.Orchestrator.Effects.{
  Action, Failure, Mail, World, bind, done, failing, reading, saved, sent, service,
}
use platform_api.Orchestrator.Services.{Services, Settings}
use platform_api.Orchestrator.Delivery.{archive, build_delivery}
use platform_api.Orchestrator.Publish.{publish_portal}

pub record PipelineResult : Type 0 where
  pub edp : JobResult
  pub archived : List ArtifactRef
  pub delivery : OrderEmsDelivery
  pub deployment_uuid : Text

pub ready_mail : ConfiguratorPayload → Text → Mail
ready_mail payload portal_url = record {
  recipient = payload.contact_email;
  subject = text "ARCNODE deployment package ready: " ++ payload.deployment_site_name;
  body =
      text "Your ARCNODE deployment package for "
      ++ (payload.deployment_site_name
          ++ (text " is ready.\n\nPortal: " ++ (portal_url ++ text "\n")));
}

pub failed_mail : ConfiguratorPayload → Text → Mail
failed_mail payload order_id = record {
  recipient = payload.contact_email;
  subject = text "ARCNODE deployment package failed";
  body =
      text "We could not finish the ARCNODE deployment package for "
      ++ (payload.deployment_site_name
          ++ (text ".\n\nOrder: "
              ++ (order_id
                  ++ text "\n\nReply to this email with the order id and we will follow up.\n")));
}

pub with_status : Order → OrderStatus → Order
with_status order status = record {
  id = order.id;
  status = status;
  submitted_at = order.submitted_at;
  completed_at = order.completed_at;
  payload = order.payload;
  deployment_uuid = order.deployment_uuid;
  edp_artifacts = order.edp_artifacts;
  ems_delivery = order.ems_delivery;
}

pub failed_at : Order → Text → Order
failed_at order when = record {
  id = order.id;
  status = OrderStatus.failed;
  submitted_at = order.submitted_at;
  completed_at = some when;
  payload = order.payload;
  deployment_uuid = order.deployment_uuid;
  edp_artifacts = order.edp_artifacts;
  ems_delivery = order.ems_delivery;
}

pub completed_with : Order → PipelineResult → Text → Order
completed_with order result when = record {
  id = order.id;
  status = OrderStatus.complete;
  submitted_at = order.submitted_at;
  completed_at = some when;
  payload = order.payload;
  deployment_uuid = some result.deployment_uuid;
  edp_artifacts = result.archived;
  ems_delivery = some result.delivery;
}

module _ {S X : Type 0} (services : Services S X) (settings : Settings) where
  abbrev pub save : Order → Action S X (Unit {0})
  save order w = saved order (services.write_row order w.services) w

  abbrev pub send : Mail → Action S X (Unit {0})
  send mail w = sent mail (services.send_delivery_email mail w.services) w

  abbrev pub validated : Order → Action S X ConfiguratorPayload
  validated order w = (failing (services.validate_payload order.payload), w)

  pub setup_aws : Action S X (Unit {0})
  setup_aws = bind (service services.ensure_bucket) λ _. service services.verify_sender

  -- all of `_run_pipeline` before its mail: the payload, the result and the portal's link
  unfoldable pub prepare : Order → Action S X (ConfiguratorPayload × PipelineResult × Text)
  unfolding setup_aws archive build_delivery publish_portal
  prepare order = bind setup_aws λ _. bind (validated order) λ payload.
      bind (service (services.submit_and_wait payload order.id)) λ edp.
        bind (archive services settings order.id edp) λ archived.
          bind (build_delivery services settings order.id payload archived) λ delivery.
            bind (publish_portal services settings order.id payload archived delivery) λ url. done (
              payload,
              record {
                edp = edp;
                archived = refs_of archived;
                delivery = delivery;
                deployment_uuid = order.id;
              },
              url,
            )

  unfoldable pub run_pipeline : Order → Action S X PipelineResult
  run_pipeline order =
      bind (prepare order)
        λ (payload, result, url). bind (send (ready_mail payload url)) λ _. done result

  pub mark_failed : Order → Action S X (Unit {0})
  mark_failed order = bind (reading services.now) λ when. save (failed_at order when)

  pub mark_complete : Order → PipelineResult → Action S X (Unit {0})
  mark_complete order result =
      bind (reading services.now) λ when. save (completed_with order result when)

  -- the `except` clause
  pub after_failure : Order → Action S X (Unit {0})
  after_failure order =
      bind (mark_failed order)
        λ _. bind (validated order) λ payload. send (failed_mail payload order.id)

  -- the end of the `try` statement and what follows it
  pub settle :
      Order → Result (Failure X) PipelineResult × World S → Result (Failure X) (Unit {0}) × World S
  settle order (ok result, w) = mark_complete order result w
  settle order (err e, w) = after_failure order w

  unfoldable pub execute : Order → Action S X (Unit {0})
  execute order =
      let started = with_status order OrderStatus.running in
      bind (save started) λ _ w. settle started (run_pipeline started w)
