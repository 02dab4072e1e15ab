-- ===== src/Lambda/Respond/Once.antt =====
-- That the functions of src/cfn/persistence/lambda_code/ answer, and once.
use platform_api.Prelude.{
  Bool-cases, Keeps, List, Result, Text, ap, arith, err, follow, if◌then◌else◌, inl, inr, ok, pure,
  refl, subst, suc, sym, text, text_eq, ℕ, ◌>>=◌, ◌>>◌, ◌∙◌, ◌∷◌, ◌≡◌,
}
use platform_api.Lambda.Respond.{
  Body, Call, CfnResponse, Event, World, after_connect, after_send, attempted, caught, closing,
  failed_with, handle, no_data, opening, physical_or, recover, respond, response, service,
}

-- What was sent and how many connections are open.
pub Still : {S : Type 0} → List CfnResponse → ℕ → World S → Type 0
Still sent opened w = (w.sent ≡ sent) × (w.opened ≡ opened)

-- A call that sends nothing, and that leaves as many connections open as it finds.
abbrev pub Calm : {S A : Type 0} → Call S A → Type 0
Calm {S} call =
    (sent : List CfnResponse) (opened : ℕ) → Keeps {S = World S} (Still sent opened) call

pub Calm-service : {S A : Type 0} (f : S → Result Text A × S) → Calm (service f)
unfolding service Still
Calm-service f sent opened = record { kept = λ w h. h }

-- A connection that is opened and closed again around calm calls.
pub Calm-connection :
    {S A B : Type 0} (connect : S → Result Text A × S) (close : S → S) (body : Call S B)
    → Calm body
    → Calm (opening connect >> closing close body)
unfolding opening closing Still ◌>>◌
Calm-connection {S = S} {A = A} {B = B} connect close body calm sent opened = record {
  kept = λ w h. go w (connect w.services) h;
}
  where
    go :
        (w : World S) (r : Result Text A × S)
        → Still sent opened w
        → Still sent opened (follow (after_connect w r) (λ a. closing close body)).1
    go w (ok a, s) (h, k) =
        let (h1, k1) =
          (calm sent (suc opened)).kept
            (record { services = s; sent = w.sent; opened = suc w.opened }) (h, ap suc k) in
        (h1, omega (arith, k1))
    go w (err e, s) (h, k) = (h, k)

-- the response that a handler owes, by how its work ended
pub owed : {A : Type 0} → Event A → Text → Result Text Body → CfnResponse
owed event default (ok data_in) =
    response event (text "SUCCESS") (physical_or default event.physical_id) data_in
owed event default (err e) =
    response event (text "FAILED") (physical_or default event.physical_id) (failed_with e)

module _ {S : Type 0} where
  abbrev Sent : CfnResponse → World S → Result Text (Unit {0}) × World S → Type 0
  Sent r w out = (out.0 ≡ ok tt) × (out.1.sent ≡ r ∷ w.sent) × (out.1.opened ≡ w.opened)

  after_send-Sent :
      (w : World S) (r : CfnResponse) (x : Result Text (Unit {0}) × S)
      → x.0 ≡ ok tt
      → Sent r w (after_send w r x)
  after_send-Sent w r (ok u, s) e = (refl, refl, refl)
  after_send-Sent w r (err x, s) e = absurd cc

  caught-ok :
      (handler : Text → Call S (Unit {0})) (r : Result Text (Unit {0}) × World S)
      → r.0 ≡ ok tt
      → caught handler r ≡ r
  caught-ok handler (ok u, w) e = refl
  caught-ok handler (err x, w) e = absurd cc

  Sent-from :
      (r : CfnResponse) (w before : World S) (out : Result Text (Unit {0}) × World S)
      → Still before.sent before.opened w
      → Sent r w out
      → Sent r before out
  unfolding Still
  Sent-from r w before out (h, k) (e, s, o) = (e, s ∙ ap (λ l. r ∷ l) h, o ∙ k)

module _ {S A : Type 0} (send : Text → CfnResponse → S → Result Text (Unit {0}) × S)
    (delivers : (url : Text) (r : CfnResponse) (s : S) → (send url r s).0 ≡ ok tt) where
  respond-Sent :
      (event : Event A) (status physical_id : Text) (data_in : Body) (w : World S)
      → Sent
          (response event status physical_id data_in)
          w
          (respond send event status physical_id data_in w)
  unfolding respond
  respond-Sent event status physical_id data_in w =
      after_send-Sent w (response event status physical_id data_in)
        (send event.response_url (response event status physical_id data_in) w.services)
        (delivers event.response_url (response event status physical_id data_in) w.services)

  -- the response to the end of the work
  worked-Sent :
      (default : Text) (event : Event A) (before : World S) (r : Result Text Body × World S)
      → Still before.sent before.opened r.1
      → Sent (owed event default r.0) before (
          caught
            (λ e.
              respond send event
                (text "FAILED")
                (physical_or default event.physical_id)
                (failed_with e))
            (follow r
              (respond send event (text "SUCCESS") (physical_or default event.physical_id))))
  unfolding owed
  worked-Sent default event before (ok d, w) h =
      let id = physical_or default event.physical_id in
      let one = respond-Sent event (text "SUCCESS") id d w in
      subst (Sent (owed event default (ok d)) before) (sym (caught-ok _ _ one.0)) (
        Sent-from (response event (text "SUCCESS") id d) w before
          (respond send event (text "SUCCESS") id d w) h one)
  worked-Sent default event before (err e, w) h =
      let id = physical_or default event.physical_id in
      Sent-from (response event (text "FAILED") id (failed_with e)) w before
        (respond send event (text "FAILED") id (failed_with e) w) h
        (respond-Sent event (text "FAILED") id (failed_with e) w)

  -- Where the PUT never fails and the work is calm, a handler ends without an exception and has sent
  -- exactly one response: that of its work, run only on a Create, as a success with the work's data or
  -- as a failure with the exception's message. As many connections are open as before.
  pub handle-responds :
      (default : Text) (event : Event A) (work : Call S Body) (w : World S)
      → Calm work
      → ((handle send default event work w).0 ≡ ok tt)
        × ((handle send default event work w).1.sent
            ≡ owed event default
                (if text_eq event.request_type (text "Create") then (work w).0 else ok no_data)
              ∷ w.sent)
        × ((handle send default event work w).1.opened ≡ w.opened)
  unfolding handle attempted recover ◌>>=◌ pure Still
  handle-responds default event work w calm =
      elim (Bool-cases (text_eq event.request_type (text "Create"))) [
        | inl e ↦
            rw e (worked-Sent default event w (work w) ((calm w.sent w.opened).kept w (refl, refl)))
        | inr e ↦ rw e (worked-Sent default event w (ok no_data, w) (refl, refl))
      ]
