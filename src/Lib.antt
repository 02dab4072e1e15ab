-- ===== src/Lib.antt =====
-- The platform API of an energy-management product, written in Python: it takes orders, has an
-- engineering service (edp-api) design them, archives the drawings, builds the delivery, publishes a
-- portal page with a manifest and a zip, mails the link, and points each site's DNS name at its box.
--
-- How the parts interact. An order comes in through the endpoints of Orders, past the rate limit. The
-- orchestrator then runs it: it waits for the engineering job (Edp), archives its files under keys
-- of their own (Bundle), builds the delivery, the manifest (Manifest) and the zip (Bundle), and
-- mails the contact. A cloud box later reports its address to Sites, which writes its record
-- through the DNS client (Dns). A cloud stack is made with the functions of Lambda, which probe
-- the customer's URLs and make the databases. On a box without a cloud, the pages of the Wizard set it
-- up: each runs commands on the box (Wizard.Machine) and marks itself done by its checks.
--
-- Which file models what:
--   Prelude             names of the libraries passed on, texts as lists of code points with Python's
--                       str methods, dictionaries keyed by text, results, decimal numerals, and the
--                       part of the Unicode tables that is used, as a parameter with its laws
--   Orders.Records      src/orders/order_entity.py, orders_record.py, configurator_payload.py
--   Orders.RateLimit    src/orders/order_rate_limit.py (OrderRateLimiter.check)
--   Orders.Service      src/orders/orders_service.py, orders_controller.py, client_address.py
--   Orchestrator.*      src/orchestrator/orchestrator_service.py (OrchestratorService): Effects is the
--                       passing of state and exceptions, Services what the constructor is given,
--                       Delivery the archive and the delivery, Publish the portal, Run execute
--   Edp.Artifacts       src/edp_client/edp_artifacts.py
--   Edp.Client          src/edp_client/edp_client_service.py (EdpClientService)
--   Bundle.Paths        unique_path of src/bundle/bundle_service.py
--   Bundle.Names        archive_keys of src/orchestrator/orchestrator_service.py, and the loop that it
--                       shares with the zip
--   Bundle.Files        bundle_files_for of src/bundle/bundle_service.py
--   Manifest.Records    src/manifest/manifest_record.py, artifact_metadata.py
--   Manifest.Summary    src/manifest/artifact_summary.py
--   Manifest.Build      src/manifest/manifest_service.py (ManifestService)
--   Dns.Client          src/dns/dns_client.py (DnsClient)
--   Sites.Slug          _slugify_site_id of src/orchestrator/orchestrator_service.py
--   Sites.Identity      src/dns/site_identity.py
--   Sites.Address       src/sites/site_address_service.py, sites_controller.py
--   Wizard.Steps        src/wizard/wizard_steps.py, preflight_service.py, docker_service.py
--   Wizard.Secrets      src/wizard/secrets_env.py, over Wizard.Lines (str.splitlines)
--   Wizard.Inputs       src/wizard/wizard_record.py (check_complexity, DerControlRequest)
--   Wizard.Lockdown     src/wizard/ssh_lockdown_service.py
--   Wizard.Machine      Runner of src/wizard/system_runner.py, and the Path methods, as an interface
--   Wizard.Waiting      src/wizard/containers_compose.py
--   Wizard.Pages        what the pages that start a daemon share, and docker_verify.read_network
--   Wizard.Pages.Containers   src/wizard/: device_api_service.py, hmi_service.py, mlflow_service.py,
--                       telemetry_writer_service.py, industrial_gateway_service.py,
--                       prometheus_service.py
--   Wizard.Pages.Telemetry    src/wizard/telemetry_writer_verify.py
--   Wizard.Pages.Broker src/wizard/hivemq_service.py, hivemq_verify.py, over Wizard.Pages.Credentials
--                       (hivemq_credentials.py, and the accounts)
--   Wizard.Pages.Postgres     src/wizard/postgres_service.py, postgres_verify.py
--   Wizard.Pages.Ssh    src/wizard/ssh_service.py, ssh_verify.py
--   Wizard.Pages.Neo4j  src/wizard/neo4j_service.py, with the commands of neo4j_verify.py
--   Wizard.Pages.Https  src/wizard/https_service.py
--   Wizard.Pages.DerControl   src/wizard/der_control_service.py, der_control_ingress.py, box_address.py
--   Lambda.Respond      what the functions of src/cfn/persistence/lambda_code/ share: handler, _respond
--   Lambda.Aurora       src/cfn/persistence/lambda_code/aurora_bootstrap.py
--   Lambda.Preflight    src/cfn/persistence/lambda_code/customer_url_preflight.py, bedrock_preflight.py
--
-- A method that changes a state is a function that takes the state and answers a result and the next
-- state; an exception is the error of the result. Services that are not modelled (S3, SES, the
-- database, templates, the clock, the HTTP clients, the parser of UUIDs) are parameters. Dictionaries
-- are association lists in insertion order. Times are in ticks of the clock, with as many ticks to a second as the model is
-- told, so the rounding of Retry-After is that of a fraction.
--
-- Fuel. unique_path has a round more than there are taken paths, since each round that goes on has met
-- another taken path. The polling loop has a round more than the sleeps that fill the timeout; it is a
-- premise that a sleep takes its interval. A wait for a log line, and the wait for bolt, are given fuel
-- by their caller: they need one more than the pauses before the wait ends, and a page whose wait has not ended
-- in its fuel is still waiting, which is an outcome of its own. The digits of a numeral have fuel above the number. All
-- other loops are structural recursion.
--
-- Not modelled: the rendering of pages, templates and images, the zip's bytes, S3 and mail traffic, the
-- XML of the DNS answers (a parsed answer is a parameter), the lock of the DNS client as interleavings,
-- logging, and the wiring of the application. Of the wizard, the checks of the Neo4j and Device API
-- pages and some of PostgreSQL's are parameters; the pages of Ollama, the analyst, Grafana and the
-- site, and the routes of the controller are not there. Of CloudFormation, the templates are
-- not there; the alarm of the URL preflight is an exception that any of its calls may raise.
pub mod Prelude
pub mod Bundle
pub mod Edp
pub mod Manifest
pub mod Dns
pub mod Sites
pub mod Orders
pub mod Orchestrator
pub mod Wizard
pub mod Lambda
