-- ===== src/Lambda/Preflight.antt =====
-- src/cfn/persistence/lambda_code/customer_url_preflight.py and bedrock_preflight.py: what is probed before
-- the rest of a stack is made.
pub mod Calls
use platform_api.Prelude.{
  Bool, List, Option, Result, Text, [], decimal, err, has_infix, if◌then◌else◌, length, none, not,
  ok, pure, reverse, some, starts_with, text, text_eq, ℕ, ◌++◌, ◌==◌, ◌>>=◌, ◌>>◌, ◌∷◌,
}
use platform_api.Lambda.Respond.{
  Body, Call, CfnResponse, Event, closing, handle, no_data, opening, service,
}

-- the parts of `urlsplit` that are read; the port may be out of range
pub record Url : Type 0 where
  pub scheme : Text
  pub hostname : Option Text
  pub port : Result Text (Option ℕ)
  pub query : Text

-- One socket: `connect` to a host and port, `wrap` in TLS for a host, and bytes out and in. Any call may
-- raise, the alarm's timeout too.
pub record Sockets (S : Type 0) : Type 0 where
  pub urlsplit : Text → Result Text Url
  pub connect : Text → ℕ → S → Result Text (Unit {0}) × S
  pub wrap : Text → S → Result Text (Unit {0}) × S
  pub sendall : List ℕ → S → Result Text (Unit {0}) × S
  pub recv : ℕ → S → Result Text (List ℕ) × S
  pub close : S → S
  pub send : Text → CfnResponse → S → Result Text (Unit {0}) × S

pub record Urls : Type 0 where
  pub timeseries_url : Text
  pub graph_url : Text

-- an exception of a call, reported in other words
abbrev pub reworded : {S A : Type 0} → (Text → Text) → Result Text A × S → Result Text A × S
reworded words (ok a, s) = (ok a, s)
reworded words (err e, s) = (err (words e), s)

abbrev host_of : Option Text → Text
host_of none = []
host_of (some host) = host

-- `parts.port or default`
abbrev port_of : ℕ → Option ℕ → ℕ
port_of default none = default
port_of default (some port) = if port == 0 then default else port

abbrev pub place : Text → ℕ → Text
place host port = host ++ b':' ∷ decimal port

abbrev pub unreachable : Text → Text → ℕ → Text → Text
unreachable name host port e =
    name ++ (text ": cannot reach " ++ (place host port ++ (text " (" ++ (e ++ text ")"))))

abbrev pub handshake_failed : Text → Text → ℕ → Text → Text
handshake_failed name host port e =
    name
    ++ (text ": TLS handshake failed for " ++ (place host port ++ (text " (" ++ (e ++ text ")"))))

abbrev bolt_hello : List ℕ
bolt_hello = 96 ∷ 96 ∷ 176 ∷ 23 ∷ 0 ∷ 0 ∷ 0 ∷ 4 ∷ 0 ∷ 0 ∷ 0 ∷ 0 ∷ 0 ∷ 0 ∷ 0 ∷ 0 ∷ 0 ∷ 0 ∷ 0 ∷ 0 ∷ []

-- the server's choice of a version
pub chosen_version : Text → ℕ → List ℕ → Result Text (Unit {0})
chosen_version host port chosen =
    if text_eq chosen (0 ∷ 0 ∷ 0 ∷ 0 ∷ [])
    then err (text "GraphUrl: no compatible Bolt version (server " ++ (place host port ++ text ")"))
    else if not (length chosen == 4)
    then err (
        text "GraphUrl: server did not respond with Bolt handshake (got "
        ++ (decimal (length chosen) ++ (text " bytes from " ++ (place host port ++ text ")"))))
    else ok tt

module _ {S : Type 0} (sockets : Sockets S) where
  -- a value that may have raised on the way
  unfoldable pub given : {A : Type 0} → Result Text A → Call S A
  given r w = (r, w)

  -- the connection of either check
  abbrev pub reach : Text → Text → ℕ → S → Result Text (Unit {0}) × S
  reach name host port s = reworded (unreachable name host port) (sockets.connect host port s)

  -- the handshake, where the URL asks for TLS
  pub secure_socket : Text → Bool → Text → ℕ → Call S (Unit {0})
  secure_socket name require_tls host port =
      if require_tls
      then service (λ s. reworded (handshake_failed name host port) (sockets.wrap host s))
      else pure tt

  -- `_check_postgres`
  pub check_postgres : Text → Call S (Unit {0})
  check_postgres url = do
    parts ← given (sockets.urlsplit url)
    port ← given parts.port
    opening (reach (text "TimeseriesUrl") (host_of parts.hostname) (port_of 5432 port))
        >> closing sockets.close (
            secure_socket (text "TimeseriesUrl") (has_infix parts.query (text "sslmode=require"))
              (host_of parts.hostname) (port_of 5432 port))

  -- the Bolt handshake over an open socket
  pub bolt_handshake : Bool → Text → ℕ → Call S (Unit {0})
  bolt_handshake require_tls host port = do
    secure_socket (text "GraphUrl") require_tls host port
    service (sockets.sendall bolt_hello)
    chosen ← service (sockets.recv 4)
    given (chosen_version host port chosen)

  -- `_check_neo4j`
  pub check_neo4j : Text → Call S (Unit {0})
  check_neo4j url = do
    parts ← given (sockets.urlsplit url)
    port ← given parts.port
    opening (reach (text "GraphUrl") (host_of parts.hostname) (port_of 7687 port))
        >> closing sockets.close (
            bolt_handshake (starts_with (reverse parts.scheme) (reverse (text "+s")))
              (host_of parts.hostname) (port_of 7687 port))

  pub check_urls : Urls → Call S Body
  check_urls urls = do check_postgres urls.timeseries_url; check_neo4j urls.graph_url; pure no_data

  -- `handler` of customer_url_preflight.py
  unfoldable pub url_handler : Event Urls → Call S (Unit {0})
  url_handler event =
      handle sockets.send (text "customer-url-preflight") event (check_urls event.properties)

pub record Models : Type 0 where
  pub chat_model : Text
  pub embed_model : Text

-- how an invocation fails
pub data ModelError : Type 0 where
  access_denied : ModelError
  other_error : Text → ModelError

abbrev access_denied_message : Text → Text
access_denied_message model =
    text "Bedrock model access not granted for "
    ++ (model
        ++ text
            ". Open AWS console > Bedrock > Model access > Manage model access > request + accept terms for the model above, then re-run the stack. Account-level setting; only needed once per AWS account.")

abbrev pub told : {S A : Type 0} → Text → Result ModelError A × S → Result Text A × S
told model (ok a, s) = (ok a, s)
told model (err access_denied, s) = (err (access_denied_message model), s)
told model (err (other_error e), s) = (err e, s)

abbrev titan_body : Text
titan_body = text "{\"inputText\": \"ok\"}"

abbrev claude_body : Text
claude_body =
    text
      "{\"anthropic_version\": \"bedrock-2023-05-31\", \"max_tokens\": 1, \"messages\": [{\"role\": \"user\", \"content\": \"ok\"}]}"

-- `invoke` is the client's invoke_model for a model and a body.
module _ {S : Type 0} (invoke : Text → Text → S → Result ModelError (Unit {0}) × S)
    (send : Text → CfnResponse → S → Result Text (Unit {0}) × S) where
  -- `_probe_titan` and `_probe_claude`
  pub probe_model : Text → Text → Call S (Unit {0})
  probe_model model content = service (λ s. told model (invoke model content s))

  -- `_probe`
  pub probe : Models → Call S Body
  probe models = do
    probe_model models.embed_model titan_body
    probe_model models.chat_model claude_body
    pure no_data

  -- `handler` of bedrock_preflight.py
  unfoldable pub bedrock_handler : Event Models → Call S (Unit {0})
  bedrock_handler event = handle send (text "bedrock-preflight") event (probe event.properties)
