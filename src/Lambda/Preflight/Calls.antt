-- ===== src/Lambda/Preflight/Calls.antt =====
-- How src/cfn/persistence/lambda_code/customer_url_preflight.py and bedrock_preflight.py answer.
use platform_api.Prelude.{
  Bool, Keeps->>, Keeps->>=, Keeps-if, Keeps-pure, Result, Text, if◌then◌else◌, ok, text, text_eq,
  ℕ, ◌∷◌, ◌≡◌,
}
use platform_api.Lambda.Respond.{CfnResponse, Event, World, no_data}
use platform_api.Lambda.Respond.Once.{Calm, Calm-connection, Calm-service, handle-responds, owed}
use platform_api.Lambda.Preflight.{
  ModelError, Models, Sockets, Urls, bedrock_handler, bolt_handshake, check_neo4j, check_postgres,
  check_urls, given, handshake_failed, probe, probe_model, reworded, secure_socket, url_handler,
}

module _ {S : Type 0} (sockets : Sockets S) where
  Calm-given : {A : Type 0} (r : Result Text A) → Calm {S = S} (given sockets r)
  unfolding given
  Calm-given r a n = record { kept = λ w h. h }

  Calm-secure_socket :
      (name : Text) (require_tls : Bool) (host : Text) (port : ℕ)
      → Calm (secure_socket sockets name require_tls host port)
  unfolding secure_socket
  Calm-secure_socket name require_tls host port a n =
      Keeps-if _ require_tls _ _
        (Calm-service (λ s. reworded (handshake_failed name host port) (sockets.wrap host s)) a n)
        (Keeps-pure _ tt)

  Calm-bolt_handshake :
      (require_tls : Bool) (host : Text) (port : ℕ)
      → Calm (bolt_handshake sockets require_tls host port)
  unfolding bolt_handshake
  Calm-bolt_handshake require_tls host port a n =
      Keeps->> _ _ _ (Calm-secure_socket (text "GraphUrl") require_tls host port a n) (
        Keeps->> _ _ _ (Calm-service _ a n)
          (Keeps->>= _ _ _ (Calm-service _ a n) (λ chosen. Calm-given _ a n)))

  Calm-check_urls : (urls : Urls) → Calm (check_urls sockets urls)
  unfolding check_urls check_postgres check_neo4j
  Calm-check_urls urls a n =
      Keeps->> _ _ _
        (Keeps->>= _ _ _ (Calm-given _ a n) (λ parts.
          Keeps->>= _ _ _ (Calm-given _ a n)
            (λ port. Calm-connection _ sockets.close _ (Calm-secure_socket _ _ _ _) a n)))
        (Keeps->> _ _ _
          (Keeps->>= _ _ _ (Calm-given _ a n) (λ parts.
            Keeps->>= _ _ _ (Calm-given _ a n)
              (λ port. Calm-connection _ sockets.close _ (Calm-bolt_handshake _ _ _) a n)))
          (Keeps-pure _ _))

  -- Where the PUT never fails, the preflight of the customer's URLs ends without an exception, has sent
  -- exactly one response, on a Create the outcome of both checks and else a success, and has closed
  -- every socket that it opened, whichever call raised.
  pub url_handler-responds :
      (event : Event Urls) (w : World S)
      → ((url : Text) (r : CfnResponse) (s : S) → (sockets.send url r s).0 ≡ ok tt)
      → ((url_handler sockets event w).0 ≡ ok tt)
        × ((url_handler sockets event w).1.sent
            ≡ owed event (text "customer-url-preflight") (
                if text_eq event.request_type (text "Create")
                then (check_urls sockets event.properties w).0
                else ok no_data)
              ∷ w.sent)
        × ((url_handler sockets event w).1.opened ≡ w.opened)
  unfolding url_handler
  url_handler-responds event w delivers =
      handle-responds sockets.send delivers (text "customer-url-preflight") event
        (check_urls sockets event.properties) w (Calm-check_urls event.properties)

module _ {S : Type 0} (invoke : Text → Text → S → Result ModelError (Unit {0}) × S)
    (send : Text → CfnResponse → S → Result Text (Unit {0}) × S) where
  Calm-probe : (models : Models) → Calm (probe invoke send models)
  unfolding probe probe_model
  Calm-probe models a n =
      Keeps->> _ _ _ (Calm-service _ a n) (Keeps->> _ _ _ (Calm-service _ a n) (Keeps-pure _ _))

  -- The preflight of the models answers in the same way.
  pub bedrock_handler-responds :
      (event : Event Models) (w : World S)
      → ((url : Text) (r : CfnResponse) (s : S) → (send url r s).0 ≡ ok tt)
      → ((bedrock_handler invoke send event w).0 ≡ ok tt)
        × ((bedrock_handler invoke send event w).1.sent
            ≡ owed event (text "bedrock-preflight") (
                if text_eq event.request_type (text "Create")
                then (probe invoke send event.properties w).0
                else ok no_data)
              ∷ w.sent)
        × ((bedrock_handler invoke send event w).1.opened ≡ w.opened)
  unfolding bedrock_handler
  bedrock_handler-responds event w delivers =
      handle-responds send delivers (text "bedrock-preflight") event
        (probe invoke send event.properties) w (Calm-probe event.properties)
