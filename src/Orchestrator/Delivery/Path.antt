-- ===== src/Orchestrator/Delivery/Path.antt =====
-- Which files a delivery of src/orchestrator/orchestrator_service.py carries.
use platform_api.Prelude.{List, Option, Text, ap, arith, none, ok, refl, some, sym, ◌≡◌}
use platform_api.Manifest.Build.{Archived}
use platform_api.Orders.Records.{
  ConfiguratorPayload, DeliveryPath, OrderEmsDelivery, OrderSite, cfn_govcloud, cfn_standard,
  derive_delivery_path, iso,
}
use platform_api.Orchestrator.Effects.{World, raise}
use platform_api.Orchestrator.Effects.Outcomes.{bind-ok, done-ok}
use platform_api.Orchestrator.Services.{Services, Settings}
use platform_api.Orchestrator.Delivery.{
  build_delivery, deliver, deliver_found, deliver_iso, deliver_template, find_dtm_url, order_site,
}

-- An image for the path without a cloud, a template for the others; never both.
abbrev pub Carries : DeliveryPath → OrderEmsDelivery → Type 0
Carries iso d = (d.template_url ≡ none) × ((url : Text) × (d.iso_url ≡ some url))
Carries cfn_standard d = (d.iso_url ≡ none) × ((url : Text) × (d.template_url ≡ some url))
Carries cfn_govcloud d = (d.iso_url ≡ none) × ((url : Text) × (d.template_url ≡ some url))

module _ {S X : Type 0} (services : Services S X) (settings : Settings) where
  deliver_iso-lem :
      (order_id : Text) (path : DeliveryPath) (site : OrderSite) (w v : World S)
      (d : OrderEmsDelivery)
      → deliver_iso services settings order_id path site w ≡ (ok d, v)
      → (d.path ≡ path) × (d.template_url ≡ none) × ((url : Text) × (d.iso_url ≡ some url))
  unfolding deliver_iso
  deliver_iso-lem order_id path site w v d h =
      let (baked, u, _, k) = bind-ok _ _ w d v h in
      let same = done-ok _ d u v k in
      (
        sym (ap (λ x. x.path) same),
        sym (ap (λ x. x.template_url) same),
        (baked.0, sym (ap (λ x. x.iso_url) same)),
      )

  deliver_template-lem :
      (order_id : Text) (path : DeliveryPath) (payload : ConfiguratorPayload) (site : OrderSite)
      (w v : World S) (d : OrderEmsDelivery)
      → deliver_template services settings order_id path payload site w ≡ (ok d, v)
      → (d.path ≡ path) × (d.iso_url ≡ none) × ((url : Text) × (d.template_url ≡ some url))
  unfolding deliver_template
  deliver_template-lem order_id path payload site w v d h =
      let (template, u, _, k) = bind-ok _ _ w d v h in
      let (url, t, _, l) = bind-ok _ _ u d v k in
      let same = done-ok _ d t v l in
      (
        sym (ap (λ x. x.path) same),
        sym (ap (λ x. x.iso_url) same),
        (url, sym (ap (λ x. x.template_url) same)),
      )

  deliver-Carries :
      (order_id : Text) (path : DeliveryPath) (payload : ConfiguratorPayload) (site : OrderSite)
      (w v : World S) (d : OrderEmsDelivery)
      → deliver services settings order_id path payload site w ≡ (ok d, v)
      → (d.path ≡ path) × Carries path d
  unfolding deliver
  deliver-Carries order_id iso payload site w v d h =
      let (p, q, r) = deliver_iso-lem order_id iso site w v d h in (p, (q, r))
  deliver-Carries order_id cfn_standard payload site w v d h =
      let (p, q, r) = deliver_template-lem order_id cfn_standard payload site w v d h in (p, (q, r))
  deliver-Carries order_id cfn_govcloud payload site w v d h =
      let (p, q, r) = deliver_template-lem order_id cfn_govcloud payload site w v d h in (p, (q, r))

  deliver_found-Carries :
      (order_id : Text) (payload : ConfiguratorPayload) (found : Option OrderSite)
      (link : Option Text) (w v : World S) (d : OrderEmsDelivery)
      → deliver_found services settings order_id payload found link w ≡ (ok d, v)
      → ((dtm_url : Text) × (link ≡ some dtm_url))
        × (d.path ≡ derive_delivery_path payload.aws_partition)
        × Carries (derive_delivery_path payload.aws_partition) d
  unfolding deliver_found raise
  deliver_found-Carries order_id payload none link w v d h = absurd (ground arith)
  deliver_found-Carries order_id payload (some site) none w v d h = absurd (ground arith)
  deliver_found-Carries order_id payload (some site) (some url) w v d h =
      let (p, c) =
        deliver-Carries order_id (derive_delivery_path payload.aws_partition) payload site w v d
          h in
      ((url, refl), p, c)

-- A delivery that is built is for an archive with a DTM, on the path of the payload's partition, and
-- it carries what that path needs: an image without a cloud, a template with one, and never both.
pub build_delivery-Carries :
    {S X : Type 0} (services : Services S X) (settings : Settings) (order_id : Text)
    (payload : ConfiguratorPayload) (archived : List Archived) (w v : World S)
    (d : OrderEmsDelivery)
    → build_delivery services settings order_id payload archived w ≡ (ok d, v)
    → ((dtm_url : Text) × (find_dtm_url archived ≡ some dtm_url))
      × (d.path ≡ derive_delivery_path payload.aws_partition)
      × Carries (derive_delivery_path payload.aws_partition) d
unfolding build_delivery
build_delivery-Carries services settings order_id payload archived w v d h =
    deliver_found-Carries services settings order_id payload
      (order_site services settings payload order_id) (find_dtm_url archived) w v d h
