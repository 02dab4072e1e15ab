-- ===== src/Lambda/Examples.antt =====
-- Runs of src/cfn/persistence/lambda_code/ on small services.
use platform_api.Prelude.{
  Bool, Distinct, List, Result, Text, [], all, contains, err, false, if◌then◌else◌, none, ok, pure,
  refl, some, starts_with, suc, text, text_eq, true, zero, ℕ, ◌+◌, ◌>>=◌, ◌>>◌, ◌||◌, ◌∷◌, ◌≡◌,
}
use platform_api.Lambda.Respond.{Event, World, no_data, service}
use platform_api.Lambda.Respond.Once.{owed}
use platform_api.Lambda.Aurora.{
  Properties, Services, bootstrap_handler, create, create_databases, create_db_if_missing, spec,
}
use platform_api.Lambda.Preflight.{Sockets, Url, Urls, check_urls, url_handler}
use platform_api.Lambda.Preflight.Calls.{url_handler-responds}
use platform_api.Lambda.Aurora.Calls.{bootstrap_handler-responds}
use platform_api.Lambda.Aurora.Databases.{IsCluster, create_databases-databases, database_names}

abbrev drop : ℕ → Text → Text
drop zero s = s
drop (suc n) [] = []
drop (suc n) (c ∷ s) = drop n s

abbrev add_database : Bool → Text → List Text → Result Text (Unit {0}) × List Text
add_database true db s = (err (text "already exists"), s)
add_database false db s = (ok tt, db ∷ s)

abbrev run_sql : Text → List Text → Result Text (Unit {0}) × List Text
run_sql sql s =
    if starts_with sql (text "CREATE DATABASE ")
    then add_database (contains (drop 16 sql) s) (drop 16 sql) s
    else (ok tt, s)

-- a cluster that is the list of its databases
abbrev small_services : Services (List Text)
small_services = record {
  get_secret = λ name s. (ok (text "p@ss"), s);
  connect =
      λ host user password db s. (if contains db s then ok tt else err (text "no database"), s);
  execute = λ db sql s. run_sql sql s;
  database_exists = λ db s. (ok (contains db s), s);
  close = λ s. s;
  put_secret = λ name value s. (ok tt, s);
  send = λ url r s. (ok tt, s);
}

ok_injective : (a b : Bool) → ◌≡◌ {A = Result Text Bool} (ok a) (ok b) → b ≡ a
ok_injective a b e = cc

added :
    (b : Bool) (db : Text) (s : List Text)
    → (add_database b db s).0 ≡ ok tt
    → (add_database b db s).1 ≡ db ∷ s
added true db s e = absurd cc
added false db s e = refl

not_added :
    (b : Bool) (db : Text) (s : List Text) (x : Text)
    → (add_database b db s).0 ≡ err x
    → (add_database b db s).1 ≡ s
not_added true db s x e = refl
not_added false db s x e = absurd cc

small_services-IsCluster : IsCluster small_services (λ s. s)
small_services-IsCluster = record {
  says = λ db s b e. ok_injective (contains db s) b e;
  says_keeps = λ db s. refl;
  creates = λ db s e. added (contains db s) db s e;
  fails = λ db s x e. not_added (contains db s) db s x e;
}

abbrev started : World (List Text)
started = record { services = text "postgres" ∷ text "ems_vector" ∷ []; sent = []; opened = 0 }

abbrev two_slices : List Text
two_slices = text "document" ∷ text "vector" ∷ []

create_databases-databases_example :
    (Distinct (text "postgres" ∷ text "ems_vector" ∷ [])
      → Distinct (create_databases small_services two_slices started).1.services)
    × ((create_databases small_services two_slices started).0 ≡ ok tt
        → (db : Text)
        → contains db (create_databases small_services two_slices started).1.services
          ≡ (contains db started.services || contains db (database_names two_slices)))
    × (all (λ d. contains d started.services) (database_names two_slices) ≡ true
        → (create_databases small_services two_slices started).1.services ≡ started.services)
create_databases-databases_example =
    create_databases-databases small_services (λ s. s) small_services-IsCluster two_slices started

created_one :
    (create_databases small_services two_slices started).1.services
    ≡ text "ems_document" ∷ text "postgres" ∷ text "ems_vector" ∷ []
unfolding create_databases create_db_if_missing spec service ◌>>=◌ ◌>>◌ pure
created_one = refl

abbrev stack_event : Event Properties
stack_event = record {
  request_type = text "Create";
  physical_id = none;
  properties = record {
    cluster_endpoint = text "db";
    master_username = text "postgres";
    deployment_uuid = text "u1";
    slices = two_slices;
    master_secret = text "arn";
  };
  stack_id = text "s";
  request_id = text "r";
  logical_id = text "l";
  response_url = text "https://cfn";
}

bootstrap_handler-responds_example :
    ((bootstrap_handler small_services (λ s. s) stack_event started).0 ≡ ok tt)
    × ((bootstrap_handler small_services (λ s. s) stack_event started).1.sent
        ≡ owed stack_event (text "aurora-bootstrap") (
            if text_eq stack_event.request_type (text "Create")
            then (create small_services (λ s. s) stack_event.properties started).0
            else ok no_data)
          ∷ [])
    × ((bootstrap_handler small_services (λ s. s) stack_event started).1.opened ≡ 0)
bootstrap_handler-responds_example =
    bootstrap_handler-responds small_services (λ s. s) stack_event started (λ url r s. refl)

abbrev plain_url : Text → Result Text Url
plain_url url =
    ok (record { scheme = text "neo4j+s"; hostname = some url; port = ok none; query = [] })

-- sockets that answer with version 4 of Bolt
abbrev small_sockets : Sockets ℕ
small_sockets = record {
  urlsplit = plain_url;
  connect = λ host port s. (ok tt, s + 1);
  wrap = λ host s. (err (text "certificate expired"), s + 1);
  sendall = λ bytes s. (ok tt, s + 1);
  recv = λ n s. (ok (0 ∷ 0 ∷ 0 ∷ 4 ∷ []), s + 1);
  close = λ s. s + 1;
  send = λ url r s. (ok tt, s + 1);
}

abbrev idle : World ℕ
idle = record { services = 0; sent = []; opened = 0 }

abbrev url_event : Event Urls
url_event = record {
  request_type = text "Create";
  physical_id = some (text "p");
  properties = record { timeseries_url = text "tiger"; graph_url = text "aura" };
  stack_id = text "s";
  request_id = text "r";
  logical_id = text "l";
  response_url = text "https://cfn";
}

url_handler-responds_example :
    ((url_handler small_sockets url_event idle).0 ≡ ok tt)
    × ((url_handler small_sockets url_event idle).1.sent
        ≡ owed url_event (text "customer-url-preflight") (
            if text_eq url_event.request_type (text "Create")
            then (check_urls small_sockets url_event.properties idle).0
            else ok no_data)
          ∷ [])
    × ((url_handler small_sockets url_event idle).1.opened ≡ 0)
url_handler-responds_example = url_handler-responds small_sockets url_event idle (λ url r s. refl)
