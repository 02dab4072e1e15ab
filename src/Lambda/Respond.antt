-- ===== src/Lambda/Respond.antt =====
-- src/cfn/persistence/lambda_code/: the answer to CloudFormation, which the functions share.
pub mod Once
use platform_api.Prelude.{
  List, Method, Option, Result, Text, err, if◌then◌else◌, none, ok, pure, some, suc, text, text_eq,
  ℕ, ◌-◌, ◌>>=◌, ◌>>◌, ◌∷◌,
}

-- the event of a custom resource, as CloudFormation documents it; `A` is its properties
pub record Event (A : Type 0) : Type 0 where
  pub request_type : Text
  pub physical_id : Option Text
  pub properties : A
  pub stack_id : Text
  pub request_id : Text
  pub logical_id : Text
  pub response_url : Text

-- what a function hands to `_respond` as its data
pub data Body : Type 0 where
  no_data : Body
  created : List (Text × Text) → List Text → Body
  failed_with : Text → Body

-- the body of the PUT
pub record CfnResponse : Type 0 where
  pub status : Text
  pub reason : Text
  pub physical_id : Text
  pub stack_id : Text
  pub request_id : Text
  pub logical_id : Text
  pub data_of : Body

-- The state of the services, the responses that went out, newest first, and how many connections are
-- open.
pub record World (S : Type 0) : Type 0 where
  pub services : S
  pub sent : List CfnResponse
  pub opened : ℕ

-- An exception is its message.
abbrev pub Call : Type 0 → Type 0 → Type 0
Call S A = Method (World S) Text A

abbrev pub passed_on : {S A : Type 0} → World S → Result Text A × S → Result Text A × World S
passed_on w (r, s) = (r, record { services = s; sent = w.sent; opened = w.opened })

-- a call of a service
unfoldable pub service : {S A : Type 0} → (S → Result Text A × S) → Call S A
service call w = passed_on w (call w.services)

abbrev pub after_connect : {S A : Type 0} → World S → Result Text A × S → Result Text A × World S
after_connect w (ok a, s) = (ok a, record { services = s; sent = w.sent; opened = suc w.opened })
after_connect w (err e, s) = (err e, record { services = s; sent = w.sent; opened = w.opened })

-- a call that opens a connection where it does not raise
unfoldable pub opening : {S A : Type 0} → (S → Result Text A × S) → Call S A
opening call w = after_connect w (call w.services)

abbrev pub closed : {S A : Type 0} → (S → S) → Result Text A × World S → Result Text A × World S
closed close (r, w) =
    (r, record { services = close w.services; sent = w.sent; opened = w.opened - 1 })

-- `try: body finally: conn.close()`
unfoldable pub closing : {S A : Type 0} → (S → S) → Call S A → Call S A
closing close body w = closed close (body w)

abbrev pub caught :
    {S A : Type 0} → (Text → Call S A) → Result Text A × World S → Result Text A × World S
caught handler (ok a, w) = (ok a, w)
caught handler (err e, w) = handler e w

-- `try: body except Exception as e: handler(e)`
unfoldable pub recover : {S A : Type 0} → Call S A → (Text → Call S A) → Call S A
recover body handler w = caught handler (body w)

abbrev reason_of : Body → Text
reason_of no_data = text "see CloudWatch logs"
reason_of (created names slices) = text "see CloudWatch logs"
reason_of (failed_with reason) = reason

abbrev without_reason : Body → Body
without_reason no_data = no_data
without_reason (created names slices) = created names slices
without_reason (failed_with reason) = no_data

-- the response to an event
pub response : {A : Type 0} → Event A → Text → Text → Body → CfnResponse
response event status physical_id data_in = record {
  status = status;
  reason = reason_of data_in;
  physical_id = physical_id;
  stack_id = event.stack_id;
  request_id = event.request_id;
  logical_id = event.logical_id;
  data_of = without_reason data_in;
}

abbrev pub after_send :
    {S : Type 0}
    → World S
    → CfnResponse
    → Result Text (Unit {0}) × S
    → Result Text (Unit {0}) × World S
after_send w r (ok u, s) = (ok tt, record { services = s; sent = r ∷ w.sent; opened = w.opened })
after_send w r (err e, s) = (err e, record { services = s; sent = w.sent; opened = w.opened })

abbrev pub physical_or : Text → Option Text → Text
physical_or default none = default
physical_or default (some id) = id

-- `send` is the PUT of a response to an address.
module _ {S A : Type 0} (send : Text → CfnResponse → S → Result Text (Unit {0}) × S) where
  -- `_respond`
  unfoldable pub respond : Event A → Text → Text → Body → Call S (Unit {0})
  unfolding response
  respond event status physical_id data_in w =
      let r = response event status physical_id data_in in
      after_send w r (send event.response_url r w.services)

  -- the body of the `try`
  pub attempted : Event A → Text → Call S Body → Call S (Unit {0})
  unfolding respond
  attempted event physical_id work = do
    data_in ← (if text_eq event.request_type (text "Create") then work else pure no_data)
    respond event (text "SUCCESS") physical_id data_in

  -- A handler, with its work on a Create and its default id.
  unfoldable pub handle : Text → Event A → Call S Body → Call S (Unit {0})
  unfolding attempted
  handle default event work =
      let physical_id = physical_or default event.physical_id in
      recover (attempted event physical_id work)
        (λ e. respond event (text "FAILED") physical_id (failed_with e))
