-- ===== src/Cli/Devinfra/Waits.antt =====
-- The waits of `vignemale_cli/devinfra.py` end.
use mathlib.Core.Option.{none-ne-some}
use vignemale.Backends.{S3Config, sqldb_key}
use vignemale.Cli.Collect.Extract.{nothing}
use vignemale.Cli.Devinfra.{
  Machine, admin_dsn, bring_up, core_answer, docker_info, ensure_container, ensure_docker,
  ensure_minio, ensure_postgres, minio_answers, minio_config, no_error, postgres_answers, sanitize,
  start_docker_daemon, succeeded, wait_minio, wait_ready,
}
use vignemale.Cli.Devinfra.Provision.{
  Local, create_buckets, create_database, ensure_database, is_missing, local_dsn, on_machine,
  provision_buckets, provision_each, provision_local, s3_defaults,
}
use vignemale.Cli.Poll.{Ends, Outcome, or_exit, poll, poll-ends, proceed, proceed-Ends}
use vignemale.Prelude.{
  Bool, Bool-cases, List, Option, [], arith, false, if◌then◌else◌, inl, inr, is_empty, is_some,
  keep, nat_eq, none, opt_eq, pair_eq, refl, some, suc, true, ℕ, ◌+◌, ◌<◌, ◌==◌, ◌||◌, ◌∷◌, ◌≡◌,
  ◌≤◌, ◌⊎◌,
}
use vignemale.Prelude.Dict.{insert}
use vignemale.Prelude.Text.{Text, codes, is_space, strip_both, text_eq}
use vignemale.Python.{Value, ok, raise, runtime_error, str, system_exit}
use vignemale.Python.Env.{get_env}

-- What a clock does. The core and Docker do not set it back, and a pause moves it on.
pub record Ticks (M : Machine) : Type 0 where
  pub moves : (d : ℕ) (s : M.State) → 0 < d → M.clock s < M.clock (M.sleep d s)
  pub docker_goes : (args : List Text) (s : M.State) → M.clock s ≤ M.clock (M.docker args s).1
  pub query_goes :
      (dsn sql : Text) (params : List Value) (s : M.State)
      → M.clock s ≤ M.clock (M.query dsn sql params s).1
  pub bucket_goes :
      (cfg : S3Config) (op : Text) (s : M.State) → M.clock s ≤ M.clock (M.bucket_op cfg op s).1

or_exit-Ends :
    {S : Type 0} (message : Text) (x : Option Bool × S)
    → ((b : Bool) × (x.0 ≡ some b))
    → Ends (or_exit message x)
or_exit-Ends message (none, s) (b, h) = absurd (none-ne-some b h)
or_exit-Ends message (some true, s) h = (ok tt, refl)
or_exit-Ends message (some false, s) h = (raise (system_exit message), refl)

answer-Ends : {A S : Type 0} (x : (Text ⊎ A) × S) → Ends (core_answer x)
answer-Ends (inl message, s) = (raise (runtime_error message), refl)
answer-Ends (inr a, s) = (ok a, refl)

no_error-state : {A S : Type 0} (x : (Text ⊎ A) × S) → (no_error x).1 ≡ x.1
no_error-state (inl _, s) = refl
no_error-state (inr _, s) = refl

module _ (M : Machine) (T : Ticks M) (fuel : ℕ) (enough : 120000 ≤ fuel) where
  start_docker_daemon-Ends : (s : M.State) → Ends (start_docker_daemon M (suc fuel) s)
  unfolding start_docker_daemon
  start_docker_daemon-Ends s = elim (Bool-cases M.darwin) [
    | inr other ↦ rw other (_, refl)
    | inl mac ↦ rw mac (
        or_exit-Ends _ _ (
          poll-ends M.clock M.sleep (docker_info M fuel) 2000 (M.clock (M.open_docker s) + 60000)
            fuel (M.open_docker s) (T.docker_goes (codes "info" ∷ []))
            (λ u. T.moves 2000 u (omega arith)) (omega arith)))
  ]

  wait_ready-Ends : (s : M.State) → Ends (wait_ready M (suc fuel) s)
  unfolding wait_ready
  wait_ready-Ends s =
      or_exit-Ends (codes "vignemale: the local Postgres did not start in time")
        (poll M.clock M.sleep (postgres_answers M fuel) 400 (M.clock s + 120000) (suc fuel) s)
        (poll-ends M.clock M.sleep (postgres_answers M fuel) 400 (M.clock s + 120000) fuel s
          (λ u.
            rw (no_error-state (M.query admin_dsn (codes "SELECT 1") [] u))
              (T.query_goes admin_dsn (codes "SELECT 1") [] u))
          (λ u. T.moves 400 u (omega arith)) (omega arith))

  wait_minio-Ends : (s : M.State) → Ends (wait_minio M (suc fuel) s)
  unfolding wait_minio
  wait_minio-Ends s =
      or_exit-Ends (codes "vignemale: MinIO did not start in time")
        (poll M.clock M.sleep (minio_answers M fuel) 400 (M.clock s + 60000) (suc fuel) s)
        (poll-ends M.clock M.sleep (minio_answers M fuel) 400 (M.clock s + 60000) fuel s
          (λ u.
            rw
              (no_error-state
                (M.bucket_op (minio_config (codes "vignemale-probe")) (codes "create") u))
              (T.bucket_goes (minio_config (codes "vignemale-probe")) (codes "create") u))
          (λ u. T.moves 400 u (omega arith)) (omega arith))

  ensure_docker-Ends : (s : M.State) → Ends (ensure_docker M (suc fuel) s)
  unfolding ensure_docker
  ensure_docker-Ends s = elim (Bool-cases (docker_info M fuel s).0) [
    | inl up ↦ rw up (ok tt, refl)
    | inr down ↦ rw down (start_docker_daemon-Ends (docker_info M fuel s).1)
  ]

  ensure_container-Ends :
      (name : Text) (args : List Text) (failed : Text) (s : M.State)
      → Ends (ensure_container M (suc fuel) name args failed s)
  unfolding ensure_container
  ensure_container-Ends name args failed s =
      let (state, s1) =
        M.docker (codes "inspect" ∷ codes "-f" ∷ codes "{{.State.Running}}" ∷ name ∷ []) s in
      elim (Bool-cases (succeeded state)) [
        | inl exists ↦ elim (Bool-cases (strip_both is_space state.out == codes "true")) [
          | inl running ↦ rw (exists, running) (ok tt, refl)
          | inr stopped ↦ rw (exists, stopped) (ok tt, refl)
        ]
        | inr absent ↦ elim (Bool-cases (succeeded (M.docker args s1).0)) [
          | inl started ↦ rw (absent, started) (ok tt, refl)
          | inr failing ↦ rw (absent, failing) (_, refl)
        ]
      ]

  bring_up-Ends :
      (without name : Text) (args : List Text) (failed : Text)
      (wait : M.State → Outcome (Unit {0}) × M.State) (s : M.State)
      → ((u : M.State) → Ends (wait u))
      → Ends (bring_up M (suc fuel) without name args failed wait s)
  unfolding bring_up
  bring_up-Ends without name args failed wait s waits = elim (Bool-cases M.has_docker) [
    | inr absent ↦ rw absent (_, refl)
    | inl installed ↦ rw installed (
        proceed-Ends (ensure_docker M (suc fuel) s)
          (λ _ s1. proceed (ensure_container M (suc fuel) name args failed s1) (λ _ s2. wait s2))
          (ensure_docker-Ends s)
          (λ _ s1.
            proceed-Ends (ensure_container M (suc fuel) name args failed s1) (λ _ s2. wait s2)
              (ensure_container-Ends name args failed s1) (λ _ s2. waits s2)))
  ]

  create-Ends :
      (dbname : Text) (rows : List Value) (s : M.State)
      → Ends (
          if is_empty rows
          then core_answer (M.execute admin_dsn (create_database M (suc fuel) dbname) [] s)
          else (some (ok tt), s))
  create-Ends dbname [] s = answer-Ends (M.execute admin_dsn _ [] s)
  create-Ends dbname (row ∷ rows) s = (ok tt, refl)

  ensure_database-Ends : (name : Text) (s : M.State) → Ends (ensure_database M (suc fuel) name s)
  unfolding ensure_database
  ensure_database-Ends name s =
      proceed-Ends
        (core_answer (
          M.query admin_dsn (codes "SELECT 1 FROM pg_database WHERE datname = $1") (str name ∷ [])
            s))
        _ (answer-Ends (M.query admin_dsn _ (str name ∷ []) s)) (create-Ends name)

  each-Ends : (names : List Text) (w : Local M) → Ends (provision_each M (suc fuel) names w)
  unfolding provision_each
  each-Ends [] w = (ok tt, refl)
  each-Ends (name ∷ names) w =
      proceed-Ends (on_machine M (suc fuel) (ensure_database M (suc fuel) (sanitize name)) w)
        (λ _ w'.
          provision_each M (suc fuel) names
            (record w' { env = insert (sqldb_key name) (local_dsn name) w'.env }))
        (ensure_database-Ends (sanitize name) w.machine)
        (λ _ w'.
          each-Ends names (record w' { env = insert (sqldb_key name) (local_dsn name) w'.env }))

  buckets-Ends : (names : List Text) (s : M.State) → Ends (create_buckets M (suc fuel) names s)
  unfolding create_buckets
  buckets-Ends [] s = (ok tt, refl)
  buckets-Ends (name ∷ names) s =
      proceed-Ends (core_answer (M.bucket_op (minio_config (sanitize name)) (codes "create") s))
        (λ _ s'. create_buckets M (suc fuel) names s')
        (answer-Ends (M.bucket_op (minio_config (sanitize name)) (codes "create") s))
        (λ _ s'. buckets-Ends names s')

  local-Ends : (names : List Text) (w : Local M) → Ends (provision_local M (suc fuel) names w)
  unfolding provision_local ensure_postgres
  local-Ends names w = elim (Bool-cases (is_empty (keep (is_missing w.env) names))) [
    | inl nothing ↦ rw nothing (ok tt, refl)
    | inr missing ↦ rw missing (
        proceed-Ends (on_machine M (suc fuel) (ensure_postgres M (suc fuel)) w)
          (λ _ w'. provision_each M (suc fuel) (keep (is_missing w.env) names) w')
          (bring_up-Ends _ _ _ (codes "vignemale: unable to start the local Postgres: ")
            (wait_ready M (suc fuel)) w.machine wait_ready-Ends)
          (λ _ w'. each-Ends (keep (is_missing w.env) names) w'))
  ]

  s3-Ends : (names : List Text) (w : Local M) → Ends (provision_buckets M (suc fuel) names w)
  unfolding provision_buckets ensure_minio
  s3-Ends names w =
      elim (Bool-cases
        (is_empty names || is_some (get_env (codes "VIGNEMALE_S3_ENDPOINT") w.env))) [
          | inl nothing ↦ rw nothing (ok tt, refl)
          | inr missing ↦ rw missing (
              proceed-Ends (on_machine M (suc fuel) (ensure_minio M (suc fuel)) w)
                (λ _ w'.
                  on_machine M (suc fuel) (create_buckets M (suc fuel) names)
                    (record w' { env = s3_defaults M (suc fuel) w'.env }))
                (bring_up-Ends _ _ _ (codes "vignemale: unable to start MinIO: ")
                  (wait_minio M (suc fuel)) w.machine wait_minio-Ends)
                (λ _ w'. buckets-Ends names w'.machine))
        ]

  -- `provision_local` and `provision_buckets` end, they return or raise, whatever Docker and the
  -- core answer: the fuel of the longest wait, of 120 seconds, is enough where Docker and the core
  -- do not set the clock back and a pause moves it on.
  pub provision-Ends :
      (databases buckets : List Text) (w : Local M)
      → Ends (provision_local M (suc fuel) databases w)
        × Ends (provision_buckets M (suc fuel) buckets w)
  provision-Ends databases buckets w = (local-Ends databases w, s3-Ends buckets w)
