-- ===== src/Orchestrator/Effects.antt =====
-- Methods that call services and may raise: a state passed along, with what they wrote on record.
pub mod Quiet
pub mod Outcomes
use platform_api.Prelude.{List, Result, Text, err, ok, ◌∷◌}
use platform_api.Bundle.Paths.{PathError}
use platform_api.Orders.Records.{Order}

-- an email, as `send_delivery_email` takes it
pub record Mail : Type 0 where
  pub recipient : Text
  pub subject : Text
  pub body : Text

-- The services' state, the rows that were saved and the mails that were sent, newest first.
pub record World (S : Type 0) : Type 0 where
  pub services : S
  pub saves : List Order
  pub mails : List Mail

-- The exceptions of a method: a service's, or its own.
pub data Failure (X : Type 0) : Type 0 where
  raised : X → Failure X
  dtm_missing slug_empty unknown_format lengths_differ : Failure X
  path_failed : PathError → Failure X

abbrev pub Action : Type 0 → Type 0 → Type 0 → Type 0
Action S X A = World S → Result (Failure X) A × World S

unfoldable pub done : {S X A : Type 0} → A → Action S X A
done x w = (ok x, w)

unfoldable pub raise : {S X A : Type 0} → Failure X → Action S X A
raise e w = (err e, w)

-- what follows an outcome
abbrev pub continue :
    {S X A B : Type 0}
    → Result (Failure X) A × World S
    → (A → Action S X B)
    → Result (Failure X) B × World S
continue (ok x, w) f = f x w
continue (err e, w) f = (err e, w)

unfoldable pub bind : {S X A B : Type 0} → Action S X A → (A → Action S X B) → Action S X B
bind m f w = continue (m w) f

abbrev pub failing : {X A : Type 0} → Result X A → Result (Failure X) A
failing (ok x) = ok x
failing (err e) = err (raised e)

-- a call of a service
unfoldable pub service : {S X A : Type 0} → (S → Result X A × S) → Action S X A
service call w =
    let (r, s) = call w.services in
    (failing r, record { services = s; saves = w.saves; mails = w.mails })

-- a call that cannot fail, such as a reading of the clock
unfoldable pub reading : {S X A : Type 0} → (S → A × S) → Action S X A
reading call w =
    let (x, s) = call w.services in
    (ok x, record { services = s; saves = w.saves; mails = w.mails })

abbrev pub saved :
    {S X : Type 0}
    → Order
    → Result X (Unit {0}) × S
    → World S
    → Result (Failure X) (Unit {0}) × World S
saved order (ok u, s) w = (ok tt, record { services = s; saves = order ∷ w.saves; mails = w.mails })
saved order (err e, s) w =
    (err (raised e), record { services = s; saves = w.saves; mails = w.mails })

abbrev pub sent :
    {S X : Type 0}
    → Mail
    → Result X (Unit {0}) × S
    → World S
    → Result (Failure X) (Unit {0}) × World S
sent mail (ok u, s) w = (ok tt, record { services = s; saves = w.saves; mails = mail ∷ w.mails })
sent mail (err e, s) w = (err (raised e), record { services = s; saves = w.saves; mails = w.mails })
