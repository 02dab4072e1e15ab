-- ===== src/Lambda/Aurora/Calls.antt =====
-- What src/cfn/persistence/lambda_code/aurora_bootstrap.py leaves open, and how it answers.
use platform_api.Prelude.{
  Keeps->>, Keeps->>=, Keeps-if, Keeps-pure, List, Option, Result, Text, [], contains,
  if◌then◌else◌, insert, is_empty, none, ok, some, text, text_eq, ◌++◌, ◌∷◌, ◌≡◌,
}
use platform_api.Lambda.Respond.Once.{Calm, Calm-connection, Calm-service, handle-responds, owed}
use platform_api.Lambda.Aurora.{
  Properties, Services, bootstrap_handler, create, create_databases, create_db_if_missing,
  execute_all, install_extension, measurements_schema, partition_maintenance, postgres,
  prepare_slice, prepare_slices, secret_name, spec, write_urls,
}
use platform_api.Lambda.Respond.{CfnResponse, Event, World, no_data}

module _ {S : Type 0} (services : Services S) where
  Calm-execute_all :
      (database : Text) (statements : List Text) → Calm (execute_all services database statements)
  unfolding execute_all
  Calm-execute_all database [] a n = Keeps-pure _ _
  Calm-execute_all database (sql ∷ more) a n =
      Keeps->> _ _ _ (Calm-service _ a n) (Calm-execute_all database more a n)

  Calm-spec : (slice : Text) → Calm {S = S} (spec slice)
  unfolding spec
  Calm-spec slice a n = record { kept = λ w h. h }

  Calm-create_databases : (slices : List Text) → Calm (create_databases services slices)
  unfolding create_databases create_db_if_missing
  Calm-create_databases [] a n = Keeps-pure _ _
  Calm-create_databases (slice ∷ slices) a n = Keeps->>= _ _ _ (Calm-spec slice a n) (λ of_slice.
      Keeps->> _ _ _
        (Keeps->>= _ _ _ (Calm-service _ a n)
          (λ exists. Keeps-if _ exists _ _ (Keeps-pure _ _) (Calm-service _ a n)))
        (Calm-create_databases slices a n))

  Calm-install_extension :
      (database : Text) (extension : Option Text)
      → Calm (install_extension services database extension)
  unfolding install_extension
  Calm-install_extension database none a n = Keeps-pure _ _
  Calm-install_extension database (some extension) a n =
      Keeps-if _ (text_eq extension (text "pg_partman")) _ _
        (Calm-execute_all database
          (text "CREATE SCHEMA IF NOT EXISTS partman"
            ∷ text "CREATE EXTENSION IF NOT EXISTS pg_partman SCHEMA partman"
            ∷ [])
          a n)
        (Keeps-if _ (is_empty extension) _ _ (Keeps-pure _ tt) (
          Calm-service
            (services.execute database (text "CREATE EXTENSION IF NOT EXISTS " ++ extension)) a n))

  Calm-prepare_slice :
      (slice : Text) (of_slice : Text × Option Text) → Calm (prepare_slice services slice of_slice)
  unfolding prepare_slice
  Calm-prepare_slice slice (database, extension) a n =
      Keeps->> _ _ _ (Calm-install_extension database extension a n) (
        Keeps-if _ (text_eq slice (text "timeseries")) _ _
          (Calm-execute_all database measurements_schema a n) (Keeps-pure _ tt))

  Calm-prepare_slices :
      (connect : Text → S → Result Text (Unit {0}) × S) (slices : List Text)
      → Calm (prepare_slices services connect slices)
  unfolding prepare_slices
  Calm-prepare_slices connect [] a n = Keeps-pure _ _
  Calm-prepare_slices connect (slice ∷ slices) a n =
      Keeps->>= _ _ _ (Calm-spec slice a n) (λ of_slice.
        Keeps->> _ _ _
          (Calm-connection (connect of_slice.0) services.close _ (Calm-prepare_slice slice of_slice)
            a n)
          (Calm-prepare_slices connect slices a n))

  Calm-write_urls :
      (quoted endpoint uuid : Text) (names : List (Text × Text)) (slices : List Text)
      → Calm (write_urls services quoted endpoint uuid names slices)
  unfolding write_urls
  Calm-write_urls quoted endpoint uuid names [] a n = Keeps-pure _ _
  Calm-write_urls quoted endpoint uuid names (slice ∷ slices) a n =
      Keeps->>= _ _ _ (Calm-spec slice a n) (λ of_slice. Keeps->> _ _ _ (Calm-service _ a n) (
        Calm-write_urls quoted endpoint uuid (insert slice (secret_name uuid slice) names) slices a
          n))

  Calm-create : (quote : Text → Text) (props : Properties) → Calm (create services quote props)
  unfolding create
  Calm-create quote props a n = Keeps->>= _ _ _ (Calm-service _ a n) (λ password.
      Keeps->> _ _ _ (Calm-connection _ services.close _ (Calm-create_databases props.slices) a n) (
        Keeps->> _ _ _ (Calm-prepare_slices _ props.slices a n) (
          Keeps->> _ _ _
            (Keeps-if _ (contains (text "timeseries") props.slices) _ _
              (Calm-connection
                (services.connect props.cluster_endpoint props.master_username password postgres)
                services.close _ (Calm-execute_all postgres partition_maintenance) a n)
              (Keeps-pure _ tt))
            (Keeps->>= _ _ _ (Calm-write_urls _ _ _ _ props.slices a n)
              (λ names. Keeps-pure _ _)))))

  -- Where the PUT never fails, the bootstrap ends without an exception, and has sent exactly one
  -- response: on a Create the outcome of the whole creation, a success with the names of the secrets or
  -- a failure with the exception's message, and on any other request a success. Every connection that
  -- it opened, it has closed, wherever an exception came from.
  pub bootstrap_handler-responds :
      (quote : Text → Text) (event : Event Properties) (w : World S)
      → ((url : Text) (r : CfnResponse) (s : S) → (services.send url r s).0 ≡ ok tt)
      → ((bootstrap_handler services quote event w).0 ≡ ok tt)
        × ((bootstrap_handler services quote event w).1.sent
            ≡ owed event (text "aurora-bootstrap") (
                if text_eq event.request_type (text "Create")
                then (create services quote event.properties w).0
                else ok no_data)
              ∷ w.sent)
        × ((bootstrap_handler services quote event w).1.opened ≡ w.opened)
  unfolding bootstrap_handler
  bootstrap_handler-responds quote event w delivers =
      handle-responds services.send delivers (text "aurora-bootstrap") event
        (create services quote event.properties) w (Calm-create quote event.properties)
