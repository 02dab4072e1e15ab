-- ===== src/Orders/Service.antt =====
-- src/orders/orders_service.py, orders_controller.py and client_address.py: the endpoints over the
-- stored orders.
pub mod Endpoints
pub mod Tasks
use platform_api.Prelude.{
  List, Option, Result, Text, Unicode, [], after_last, and_then, ascii, err, if◌then◌else◌, insert,
  is_empty, lookup, none, ok, refl, some, strip, text, ℕ, ◌++◌, ◌∷◌, ◌≡◌,
}
use platform_api.Edp.Artifacts.{ArtifactRef}
use platform_api.Orders.Records.{Order, OrderEmsDelivery, OrderStatus}
use platform_api.Orders.RateLimit.{Orders, RateCheck, RateError, check}

abbrev pub unknown_client : Text
unknown_client = text "unknown"

abbrev or_unknown : Option Text → Text
or_unknown none = unknown_client
or_unknown (some s) = if is_empty s then unknown_client else s

-- an absent header and an empty one are the same to it
unfoldable pub client_address : Unicode → Option Text → Option Text → Text
client_address u none fallback = or_unknown fallback
client_address u (some header) fallback =
    if is_empty header then or_unknown fallback else strip u.is_space (after_last b',' header)

pub record PostOrderResponse : Type 0 where
  pub order_id : Text
  pub status_url : Text
  pub submitted_at : Text

pub record GetOrderResponse : Type 0 where
  pub order_id : Text
  pub status : OrderStatus
  pub submitted_at : Text
  pub completed_at : Option Text
  pub edp_artifacts : List ArtifactRef
  pub ems_delivery : Option OrderEmsDelivery

-- the orders' table, and the tasks that run after the responses, oldest first
pub record Shop : Type 0 where
  pub limiter : Orders
  pub rows : List (Text × Order)
  pub tasks : List Text

pub from_order : Order → GetOrderResponse
from_order order = record {
  order_id = order.id;
  status = order.status;
  submitted_at = order.submitted_at;
  completed_at = order.completed_at;
  edp_artifacts = order.edp_artifacts;
  ems_delivery = order.ems_delivery;
}

abbrev pub new_order : Text → Text → Text → Order
new_order id when payload = record {
  id = id;
  status = OrderStatus.pending;
  submitted_at = when;
  completed_at = none;
  payload = payload;
  deployment_uuid = none;
  edp_artifacts = [];
  ems_delivery = none;
}

-- `OrdersService.submit`, with the id that `uuid4` gives and the clock's time
pub submit : Text → Text → Text → Shop → PostOrderResponse × Shop
submit id when payload shop = (
  record { order_id = id; status_url = text "/platform-api/orders/" ++ id; submitted_at = when },
  record {
    limiter = shop.limiter;
    rows = insert id (new_order id when payload) shop.rows;
    tasks = shop.tasks;
  },
)

-- the ValueError of `uuid.UUID` on a text that is no UUID
pub data UuidError : Type 0 where
  bad_uuid : UuidError

-- The row of an id; `uuid_of` is Python's UUID parser, with the plain spelling of what it reads.
unfoldable pub get_or_none :
    (Text → Option Text) → Text → List (Text × Order) → Result UuidError (Option Order)
get_or_none uuid_of order_id rows = elim (uuid_of order_id) [
  | none ↦ err bad_uuid
  | some id ↦ ok (lookup id rows)
]

abbrev response_of : Option Order → Option GetOrderResponse
response_of none = none
response_of (some order) = some (from_order order)

unfoldable pub get : (Text → Option Text) → Text → Shop → Result UuidError (Option GetOrderResponse)
unfolding from_order get_or_none
get uuid_of order_id shop =
    and_then (get_or_none uuid_of order_id shop.rows) λ order. ok (response_of order)

-- the orchestrator's run of an order that was found
abbrev pub run_found : {X : Type 0} → (Order → X → X) → Option Order → X → X
run_found run none x = x
run_found run (some order) x = run order x

-- `OrdersService.execute`; `run` is the orchestrator's `execute`, on what it changes.
unfoldable pub execute_order :
    {X : Type 0}
    → (Text → Option Text)
    → (Order → X → X)
    → Text
    → List (Text × Order)
    → X
    → Result UuidError X
unfolding get_or_none
execute_order uuid_of run order_id rows x =
    and_then (get_or_none uuid_of order_id rows) λ order. ok (run_found run order x)

-- an answer of the API, or the status of a refusal with its Retry-After
pub data Answer (A : Type 0) : Type 0 where
  accepted : A → Answer A
  refused_with : ℕ → Option ℕ → Answer A

module _ (u : Unicode) (count window_s ticks : ℕ) where
  -- the rest of `submit_order` once the limiter has answered; another exception is a 500
  pub admitted :
      Text
      → Text
      → Text
      → Result RateError RateCheck × Orders
      → Shop
      → Answer PostOrderResponse × Shop
  unfolding submit
  admitted id when payload (err e, orders) shop =
      (refused_with 500 none, record { limiter = orders; rows = shop.rows; tasks = shop.tasks })
  admitted id when payload (ok verdict, orders) shop =
      let kept : Shop = record { limiter = orders; rows = shop.rows; tasks = shop.tasks } in
      let (response, stored) = submit id when payload kept in
      if verdict.allowed
      then (
        accepted response,
        record { limiter = stored.limiter; rows = stored.rows; tasks = stored.tasks ++ id ∷ [] },
      )
      else (refused_with 429 (some verdict.retry_after_s), kept)

  unfoldable pub submit_order :
      Option Text → Option Text → Text → Text → Text → ℕ → Shop → Answer PostOrderResponse × Shop
  unfolding admitted client_address check
  submit_order forwarded_for socket id when payload now shop =
      admitted id when payload
        (check count window_s ticks (client_address u forwarded_for socket) now shop.limiter) shop

-- a raised exception is a 500
abbrev to_answer : Result UuidError (Option GetOrderResponse) → Answer GetOrderResponse
to_answer (err e) = refused_with 500 none
to_answer (ok none) = refused_with 404 none
to_answer (ok (some response)) = accepted response

unfoldable pub get_order : (Text → Option Text) → Text → Shop → Answer GetOrderResponse
unfolding get
get_order uuid_of order_id shop = to_answer (get uuid_of order_id shop)

client_address_tests :
    (client_address ascii (some (text "9.9.9.9, 1.2.3.4")) (some (text "x")) ≡ text "1.2.3.4")
    × (client_address ascii none none ≡ text "unknown")
unfolding client_address
client_address_tests = (refl, refl)
