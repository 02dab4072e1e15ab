-- ===== src/Orders/Records.antt =====
-- src/orders/: the order's row, its payload and its delivery (order_entity.py, orders_record.py,
-- configurator_payload.py).
use platform_api.Prelude.{List, Option, Text, ℕ}
use platform_api.Edp.Artifacts.{ArtifactRef}

pub data OrderStatus : Type 0 where
  pending running complete failed : OrderStatus

pub data AwsPartition : Type 0 where
  standard govcloud no_partition : AwsPartition

pub data DeploymentContext : Type 0 where
  commercial sovereign_government defense_forward : DeploymentContext

pub data DeliveryPath : Type 0 where
  cfn_standard cfn_govcloud iso : DeliveryPath

unfoldable pub derive_delivery_path : AwsPartition → DeliveryPath
derive_delivery_path standard = cfn_standard
derive_delivery_path govcloud = cfn_govcloud
derive_delivery_path no_partition = iso

pub record Grid : Type 0 where
  pub market_region : Option Text
  pub settlement_point : Option Text

-- The fields that the platform reads; the whole body is forwarded as it came, in `json`.
pub record ConfiguratorPayload : Type 0 where
  pub json : Text
  pub operator_org : Text
  pub deployment_site_name : Text
  pub contact_email : Text
  pub deployment_context : DeploymentContext
  pub aws_partition : AwsPartition
  pub grid : Grid

pub record OrderEmsDelivery : Type 0 where
  pub path : DeliveryPath
  pub template_url : Option Text
  pub iso_url : Option Text
  pub iso_size_bytes : Option ℕ

-- The row; `payload` is the JSON column, and times are in their text form.
pub record Order : Type 0 where
  pub id : Text
  pub status : OrderStatus
  pub submitted_at : Text
  pub completed_at : Option Text
  pub payload : Text
  pub deployment_uuid : Option Text
  pub edp_artifacts : List ArtifactRef
  pub ems_delivery : Option OrderEmsDelivery

-- site.yml of src/wizard/order_record.py
pub record OrderSite : Type 0 where
  pub site_id : Text
  pub market_region : Option Text
  pub settlement_point : Option Text
  pub customer : Option Text
  pub site_name : Option Text
  pub order_id : Option Text
