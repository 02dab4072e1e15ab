-- ===== src/Wizard/Pages/Postgres.antt =====
-- src/wizard/postgres_service.py, with the commands and the host's checks of postgres_verify.py.
use platform_api.Prelude.{
  Bool, List, Option, Result, Text, Unicode, [], answer, contains, decimal, if◌then◌else◌, is_empty,
  join, keep, map, none, not, pure, some, strip, text, text_eq, ◌&&◌, ◌++◌, ◌==◌, ◌>>=◌, ◌>>◌, ◌∷◌,
}
use platform_api.Wizard.Steps.{Box, StepResult, VerifyCheck}
use platform_api.Wizard.Lines.{splitlines}
use platform_api.Wizard.Secrets.{Values}
use platform_api.Wizard.Machine.{Command, Halt, Machine, Step, plain, with_input, words}
use platform_api.Wizard.Pages.{
  DockerNetwork, missing_network_check, page, read_network, run_for, run_only, save_at, shown,
}

-- `EMS_DATABASES`
abbrev pub ems_databases : List (Text × Text)
ems_databases =
    (text "DOCUMENT_URL", text "ems_document")
    ∷ (text "VECTOR_URL", text "ems_vector")
    ∷ (text "TIMESERIES_URL", text "ems_timeseries")
    ∷ (text "DER_CONTROL_URL", text "ems_dercontrol")
    ∷ []

-- `EXTENSION_DATABASES`
abbrev pub extension_databases : List (Text × Text)
extension_databases =
    (text "timescaledb", text "ems_timeseries") ∷ (text "vector", text "ems_vector") ∷ []

abbrev create_database_line : Text → Text
create_database_line db =
    text "SELECT 'CREATE DATABASE "
    ++ (db
        ++ (text "' WHERE NOT EXISTS (SELECT FROM pg_database WHERE datname = '"
            ++ (db ++ text "')\\gexec\n")))

abbrev pub create_databases_sql : Text
create_databases_sql =
    create_database_line (text "ems_document")
    ++ (create_database_line (text "ems_vector")
        ++ (create_database_line (text "ems_timeseries")
            ++ create_database_line (text "ems_dercontrol")))

abbrev psql_script : List Text
psql_script =
    text "runuser"
    ∷ text "-u"
    ∷ text "postgres"
    ∷ text "--"
    ∷ text "psql"
    ∷ text "-v"
    ∷ text "ON_ERROR_STOP=1"
    ∷ text "-q"
    ∷ text "-d"
    ∷ text "postgres"
    ∷ []

-- `psql_as_postgres`
abbrev pub psql_as_postgres : Text → Text → Command
psql_as_postgres sql database = plain (
    text "runuser"
    ∷ text "-u"
    ∷ text "postgres"
    ∷ text "--"
    ∷ text "psql"
    ∷ text "-d"
    ∷ database
    ∷ text "-tAc"
    ∷ sql
    ∷ [])

abbrev pg_hint : Text
pg_hint = text "sudo tail -n 50 /var/log/postgresql/postgresql-17-main.log"

-- `(lines or [default])[0]`
abbrev first_or : Text → List Text → Text
first_or default [] = default
first_or default (line ∷ lines) = line

abbrev row : Text → Bool → Text → Text → VerifyCheck
row name passed detail hint = record { name = name; ok = passed; detail = detail; hint = hint }

abbrev password_row : Bool → Text → VerifyCheck
password_row passed line =
    row (text "Accepts the password you set") passed
      (if passed then text "connected as postgres" else line) pg_hint

abbrev ems_row : List Text → VerifyCheck
ems_row missing =
    row (text "EMS databases") (is_empty missing)
      (if is_empty missing
        then join (text ", ") (map (λ (d : Text × Text). d.1) ems_databases)
        else text "missing " ++ join (text ", ") missing)
      (text "sudo -u postgres psql -l")

module _ {S : Type 0} (u : Unicode) (m : Machine S) where
  -- `_open_to_docker`
  pub open_to_docker : DockerNetwork → Step S (Unit {0})
  open_to_docker network = do
    run_only u m (
        with_input (text "tee" ∷ text "/etc/postgresql/17/main/conf.d/arcnode.conf" ∷ [])
          (text "listen_addresses = 'localhost," ++ (network.gateway ++ text "'\n")))
    run_only u m (
        with_input (text "tee" ∷ text "/etc/postgresql/17/main/pg_hba.d/arcnode.conf" ∷ [])
          (text "host all all " ++ (network.subnet ++ text " scram-sha-256\n")))
    run_only u m (plain (text "systemctl" ∷ text "restart" ∷ text "postgresql@17-main" ∷ []))

  -- `PostgresService._set_password`
  pub set_postgres_password : Text → Step S (Unit {0})
  set_postgres_password password = run_only u m (record {
    args = psql_script;
    input = some (text "\\getenv pw POSTGRES_PASSWORD\nALTER USER postgres PASSWORD :'pw';\n");
    env = (text "POSTGRES_PASSWORD", password) ∷ [];
  })

  pub create_extensions : List (Text × Text) → Step S (Unit {0})
  create_extensions [] = pure tt
  create_extensions ((extension, database) ∷ more) =
      run_only u m (psql_as_postgres (text "CREATE EXTENSION IF NOT EXISTS " ++ extension) database)
      >> create_extensions more

  -- `_create_databases`
  pub make_databases : Step S (Unit {0})
  unfolding create_extensions
  make_databases =
      run_only u m (with_input psql_script create_databases_sql)
      >> create_extensions extension_databases

  -- the values of `_save_urls`; `quote` is that of urllib
  pub ems_urls : (Text → Text) → Text → DockerNetwork → Values
  ems_urls quote password network =
      map
        (λ (d : Text × Text). (
          d.0,
          text "postgres://postgres:"
              ++ (quote password ++ (b'@' ∷ network.gateway ++ (text ":5432/" ++ d.1))),
        ))
        ems_databases

  -- `_running`
  pub postgres_running : Step S VerifyCheck
  postgres_running = do
    out ← run_for u m (plain (text "systemctl" ∷ text "is-active" ∷ text "postgresql@17-main" ∷ []))
    pure (
        row (text "PostgreSQL 17 running") (text_eq (shown u out) (text "active")) (shown u out)
          (text "sudo systemctl status postgresql@17-main; " ++ pg_hint))

  -- `_accepts_password`
  pub accepts_password : Text → Step S VerifyCheck
  accepts_password password = do
    out ← run_for u m (record {
      args =
          text "psql"
          ∷ text "-h"
          ∷ text "127.0.0.1"
          ∷ text "-U"
          ∷ text "postgres"
          ∷ text "-d"
          ∷ text "postgres"
          ∷ text "-tAc"
          ∷ text "SELECT current_user"
          ∷ [];
      input = none;
      env = (text "PGPASSWORD", password) ∷ [];
    })
    pure (
        password_row
          (out.returncode == 0 && text_eq (strip u.is_space out.stdout) (text "postgres"))
          (first_or (text "exit " ++ decimal out.returncode)
            (splitlines (strip u.is_space out.stdout))))

  -- `_databases`
  pub ems_there : Step S VerifyCheck
  ems_there = do
    out ← run_for u m (
        psql_as_postgres (text "SELECT datname FROM pg_database WHERE datname LIKE 'ems\\_%'")
          (text "postgres"))
    pure (
        ems_row (
          keep (λ d. not (contains d (words u.is_space out.stdout)))
            (map (λ (d : Text × Text). d.1) ems_databases)))

  -- `apply` past its guard; `verify` is the rest of verify_postgres.
  pub postgres_work :
      (Text → Bool)
      → (Text → Bool)
      → (Text → Text)
      → Text
      → Text
      → Text
      → (DockerNetwork → S → List VerifyCheck × S)
      → Step S (List VerifyCheck)
  postgres_work is_range is_address quote secrets_dir secrets password verify = do
    found ← read_network u m is_range is_address
    on_network found
    where
      on_network : Option DockerNetwork → Step S (List VerifyCheck)
      on_network none = pure (missing_network_check ∷ [])
      on_network (some network) = do
        open_to_docker network
        set_postgres_password password
        make_databases
        save_at u m secrets_dir secrets (ems_urls quote password network)
        running ← postgres_running
        accepts ← accepts_password password
        there ← ems_there
        more ← answer (verify network)
        pure (running ∷ accepts ∷ there ∷ more)

  unfoldable pub apply_postgres :
      (Text → Bool)
      → (Text → Bool)
      → (Text → Text)
      → Text
      → Text
      → Text
      → (DockerNetwork → S → List VerifyCheck × S)
      → Box S
      → Result Halt StepResult × Box S
  unfolding page
  apply_postgres is_range is_address quote secrets_dir secrets password verify =
      page (text "postgres") (text "PostgreSQL is already set up")
        (postgres_work is_range is_address quote secrets_dir secrets password verify)
