-- ===== src/Lambda/Aurora.antt =====
-- src/cfn/persistence/lambda_code/aurora_bootstrap.py: the databases of a new stack.
pub mod Calls
pub mod Databases
use platform_api.Prelude.{
  Bool, List, Option, Result, Text, [], contains, err, if◌then◌else◌, insert, is_empty, lookup,
  none, ok, pure, some, text, text_eq, ◌++◌, ◌>>=◌, ◌>>◌, ◌∷◌,
}
use platform_api.Lambda.Respond.{
  Body, Call, CfnResponse, Event, closing, created, handle, opening, service,
}

-- `SLICE_SPECS`: the database of a slice, and its extension
abbrev pub slice_specs : List (Text × (Text × Option Text))
slice_specs =
    (text "document", (text "ems_document", none))
    ∷ (text "vector", (text "ems_vector", some (text "vector")))
    ∷ (text "timeseries", (text "ems_timeseries", some (text "pg_partman")))
    ∷ (text "dercontrol", (text "ems_dercontrol", none))
    ∷ []

abbrev pub measurements_schema : List Text
measurements_schema =
    text
      "\n    CREATE TABLE IF NOT EXISTS measurements (\n        ts          TIMESTAMPTZ NOT NULL,\n        site_id     TEXT        NOT NULL,\n        device_id   TEXT        NOT NULL,\n        measurement TEXT        NOT NULL,\n        unit        TEXT        NOT NULL,\n        value       JSONB       NOT NULL\n    ) PARTITION BY RANGE (ts)\n    "
    ∷ text
        "\n    SELECT partman.create_parent(\n        p_parent_table => 'public.measurements',\n        p_control      => 'ts',\n        p_interval     => '1 hour',\n        p_premake      => 4\n    )\n    WHERE NOT EXISTS (\n        SELECT 1 FROM partman.part_config\n        WHERE parent_table = 'public.measurements'\n    )\n    "
    ∷ text
        "\n    UPDATE partman.part_config\n       SET infinite_time_partitions = true\n     WHERE parent_table = 'public.measurements'\n    "
    ∷ text
        "\n    CREATE INDEX IF NOT EXISTS idx_measurements_lookup\n        ON measurements (site_id, device_id, measurement, ts DESC)\n    "
    ∷ []

abbrev pub partition_maintenance : List Text
partition_maintenance =
    text "CREATE EXTENSION IF NOT EXISTS pg_cron"
    ∷ text
        "SELECT cron.schedule('partman-maintenance', '@hourly', 'CALL partman.run_maintenance_proc()')"
    ∷ text "UPDATE cron.job SET database = 'ems_timeseries' WHERE jobname = 'partman-maintenance'"
    ∷ []

-- the properties of the custom resource
pub record Properties : Type 0 where
  pub cluster_endpoint : Text
  pub master_username : Text
  pub deployment_uuid : Text
  pub slices : List Text
  pub master_secret : Text

-- The services of the function: Secrets Manager, the databases of the cluster by name, and the PUT of the
-- response. `connect` takes the host, the user, the password and the database; `database_exists` is the
-- query of pg_database over a connection, and its row.
pub record Services (S : Type 0) : Type 0 where
  pub get_secret : Text → S → Result Text Text × S
  pub connect : Text → Text → Text → Text → S → Result Text (Unit {0}) × S
  pub execute : Text → Text → S → Result Text (Unit {0}) × S
  pub database_exists : Text → S → Result Text Bool × S
  pub close : S → S
  pub put_secret : Text → Text → S → Result Text (Unit {0}) × S
  pub send : Text → CfnResponse → S → Result Text (Unit {0}) × S

-- `SLICE_SPECS[slice_name]`, with a KeyError where there is none
abbrev pub spec_of : Text → Option (Text × Option Text) → Result Text (Text × Option Text)
spec_of slice none = err (b'\'' ∷ slice ++ b'\'' ∷ [])
spec_of slice (some spec) = ok spec

unfoldable pub spec : {S : Type 0} → Text → Call S (Text × Option Text)
spec slice w = (spec_of slice (lookup slice slice_specs), w)

abbrev pub secret_name : Text → Text → Text
secret_name uuid slice = text "arcnode-ems-" ++ (uuid ++ (b'/' ∷ slice ++ text "-url"))

abbrev pub postgres : Text
postgres = text "postgres"

module _ {S : Type 0} (services : Services S) where
  -- `cur.execute` for each statement
  pub execute_all : Text → List Text → Call S (Unit {0})
  execute_all database [] = pure tt
  execute_all database (sql ∷ more) =
      let rest = execute_all database more in service (services.execute database sql) >> rest

  -- `_create_db_if_missing`
  unfoldable pub create_db_if_missing : Text → Call S (Unit {0})
  create_db_if_missing database = do
    exists ← service (services.database_exists database)
    if exists
        then pure tt
        else service (services.execute postgres (text "CREATE DATABASE " ++ database))

  -- the loop of the first phase
  unfoldable pub create_databases : List Text → Call S (Unit {0})
  unfolding create_db_if_missing
  create_databases [] = pure tt
  create_databases (slice ∷ slices) =
      let rest = create_databases slices in
      do of_slice ← spec slice; create_db_if_missing of_slice.0; rest

  -- the extension of a slice
  pub install_extension : Text → Option Text → Call S (Unit {0})
  unfolding execute_all
  install_extension database none = pure tt
  install_extension database (some extension) =
      if text_eq extension (text "pg_partman")
      then execute_all database (
          text "CREATE SCHEMA IF NOT EXISTS partman"
          ∷ text "CREATE EXTENSION IF NOT EXISTS pg_partman SCHEMA partman"
          ∷ [])
      else if is_empty extension
      then pure tt
      else service (services.execute database (text "CREATE EXTENSION IF NOT EXISTS " ++ extension))

  pub prepare_slice : Text → Text × Option Text → Call S (Unit {0})
  unfolding install_extension
  prepare_slice slice (database, extension) = do
    install_extension database extension
    if text_eq slice (text "timeseries") then execute_all database measurements_schema else pure tt

  -- the loop of the second phase, over a way to connect to a database
  pub prepare_slices : (Text → S → Result Text (Unit {0}) × S) → List Text → Call S (Unit {0})
  unfolding prepare_slice
  prepare_slices connect [] = pure tt
  prepare_slices connect (slice ∷ slices) =
      let rest = prepare_slices connect slices in
      do
        of_slice ← spec slice
        opening (connect of_slice.0) >> closing services.close (prepare_slice slice of_slice)
        rest

  -- the loop of the third phase: `quoted` is the user and the password, percent-encoded
  pub write_urls : Text → Text → Text → List (Text × Text) → List Text → Call S (List (Text × Text))
  write_urls quoted endpoint uuid names [] = pure names
  write_urls quoted endpoint uuid names (slice ∷ slices) =
      let name = secret_name uuid slice in
      let rest = write_urls quoted endpoint uuid (insert slice name names) slices in
      do
        of_slice ← spec slice
        service (
            services.put_secret name (
              text "postgres://" ++ (quoted ++ (b'@' ∷ endpoint ++ (text ":5432/" ++ of_slice.0)))))
        rest

  -- `_create`; `quote` is that of urllib.
  pub create : (Text → Text) → Properties → Call S Body
  unfolding create_databases prepare_slices write_urls execute_all
  create quote props = do
    password ← service (services.get_secret props.master_secret)
    opening (services.connect props.cluster_endpoint props.master_username password postgres)
        >> closing services.close (create_databases props.slices)
    prepare_slices (services.connect props.cluster_endpoint props.master_username password)
        props.slices
    if contains (text "timeseries") props.slices
        then opening
            (services.connect props.cluster_endpoint props.master_username password postgres)
          >> closing services.close (execute_all postgres partition_maintenance)
        else pure tt
    names ←
        write_urls (quote props.master_username ++ b':' ∷ quote password) props.cluster_endpoint
          props.deployment_uuid [] props.slices
    pure (created names props.slices)

  -- `handler`
  unfoldable pub bootstrap_handler : (Text → Text) → Event Properties → Call S (Unit {0})
  unfolding create
  bootstrap_handler quote event =
      handle services.send (text "aurora-bootstrap") event (create quote event.properties)
