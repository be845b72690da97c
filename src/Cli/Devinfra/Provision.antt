-- ===== src/Cli/Devinfra/Provision.antt =====
-- `provision_local` and `provision_buckets` of `vignemale_cli/devinfra.py`.
use vignemale.Backends.{sqldb_key}
use vignemale.Cli.Devinfra.{
  Machine, admin_dsn, core_answer, ensure_minio, ensure_postgres, minio_config, minio_endpoint,
  minio_key, postgres_url, sanitize,
}
use vignemale.Cli.Poll.{Outcome, proceed}
use vignemale.Prelude.{
  Bool, List, [], if◌then◌else◌, is_empty, is_some, keep, list_beq, nat_eq, not, opt_eq, pair_eq,
  some, ℕ, ◌&&◌, ◌++◌, ◌||◌, ◌∷◌,
}
use vignemale.Prelude.Dict.{has_key, insert}
use vignemale.Prelude.Text.{Text, codes, text_eq}
use vignemale.Python.{ok, str}
use vignemale.Python.Env.{Env, get_env}

-- The machine, and `os.environ`.
pub record Local (M : Machine) : Type 0 where
  pub machine : M.State
  pub env : Env

abbrev pub is_unset : Text → Env → Bool
is_unset key env = not (is_some (get_env key env))

-- The database has no address in the environment.
unfoldable pub is_missing : Env → Text → Bool
unfolding get_env list_beq
is_missing env name = is_unset (sqldb_key name) env && is_unset (codes "VIGNEMALE_SQLDB") env

abbrev pub local_dsn : Text → Text
local_dsn name = postgres_url (sanitize name)

-- os.environ.setdefault(key, value)
unfoldable pub set_default : Text → Text → Env → Env
unfolding insert
set_default key value env = if has_key key env then env else insert key value env

module _ (M : Machine) (fuel : ℕ) where
  abbrev pub on_machine :
      {A : Type 0} → (M.State → Outcome A × M.State) → Local M → Outcome A × Local M
  on_machine f w = let (r, s) = f w.machine in (r, record w { machine = s })

  abbrev pub create_database : Text → Text
  create_database dbname = codes "CREATE DATABASE \"" ++ (dbname ++ codes "\"")

  -- `_ensure_database(dbname)`
  unfoldable pub ensure_database : Text → M.State → Outcome (Unit {0}) × M.State
  ensure_database dbname s =
      proceed
        (core_answer (
          M.query admin_dsn (codes "SELECT 1 FROM pg_database WHERE datname = $1") (str dbname ∷ [])
            s))
        (λ rows s1.
          if is_empty rows
          then core_answer (M.execute admin_dsn (create_database dbname) [] s1)
          else (some (ok tt), s1))

  -- The loop over the missing databases.
  unfoldable pub provision_each : List Text → Local M → Outcome (Unit {0}) × Local M
  unfolding ensure_database insert sanitize list_beq
  provision_each [] w = (some (ok tt), w)
  provision_each (name ∷ names) w =
      proceed (on_machine (ensure_database (sanitize name)) w) (λ _ w'.
        provision_each names (record w' { env = insert (sqldb_key name) (local_dsn name) w'.env }))

  -- `provision_local(db_names)`
  unfoldable pub provision_local : List Text → Local M → Outcome (Unit {0}) × Local M
  unfolding provision_each ensure_postgres is_missing
  provision_local names w =
      let missing = keep (is_missing w.env) names in
      if is_empty missing
      then (some (ok tt), w)
      else proceed (on_machine (ensure_postgres M fuel) w) (λ _ w'. provision_each missing w')

  -- The configuration of `provision_buckets`.
  unfoldable pub s3_defaults : Env → Env
  unfolding set_default
  s3_defaults env = set_default (codes "VIGNEMALE_S3_SECRET_KEY") minio_key (
      set_default (codes "VIGNEMALE_S3_ACCESS_KEY") minio_key (
        set_default (codes "VIGNEMALE_S3_REGION") (codes "us-east-1")
          (set_default (codes "VIGNEMALE_S3_ENDPOINT") minio_endpoint env)))

  -- The loop over the buckets.
  unfoldable pub create_buckets : List Text → M.State → Outcome (Unit {0}) × M.State
  unfolding sanitize
  create_buckets [] s = (some (ok tt), s)
  create_buckets (name ∷ names) s =
      proceed (core_answer (M.bucket_op (minio_config (sanitize name)) (codes "create") s))
        (λ _ s'. create_buckets names s')

  -- `provision_buckets(bucket_names)`
  unfoldable pub provision_buckets : List Text → Local M → Outcome (Unit {0}) × Local M
  unfolding create_buckets s3_defaults ensure_minio get_env list_beq
  provision_buckets names w =
      if is_empty names || is_some (get_env (codes "VIGNEMALE_S3_ENDPOINT") w.env)
      then (some (ok tt), w)
      else proceed (on_machine (ensure_minio M fuel) w)
          (λ _ w'. on_machine (create_buckets names) (record w' { env = s3_defaults w'.env }))
