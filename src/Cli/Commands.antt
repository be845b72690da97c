-- ===== src/Cli/Commands.antt =====
-- The commands of `vignemale_cli/cli.py`, after `argparse`. Loading an app, serving it, the local
-- infrastructure and the rows of its tables are operations of a process on the world around it.
pub mod Checked
pub mod Run
use vignemale.Api.Serving.{parse_nat}
use vignemale.Cli.Collect.Paths.{Extraction}
use vignemale.Datamodel.Columns.{TableClass}
use vignemale.Datamodel.Query.Binding.{passed}
use vignemale.Datamodel.Table.{Core, SqlQuery, SqlReport, Tables, check_sql_queries}
use vignemale.Gdpr.{TableEntry, data_map}
use vignemale.Prelude.{
  Bool, List, Option, [], false, if◌then◌else◌, inl, inr, is_empty, length, ltb, nat_eq, none,
  opt_eq, or_else, pair_eq, some, suc, true, zero, ℕ, ◌++◌, ◌+◌, ◌==◌, ◌∷◌,
}
use vignemale.Prelude.Text.{Text, all_digits, codes, print_nat, text_eq}
use vignemale.Python.{Result, Value, and_then, int, ok, pos, raise, str, system_exit}
use vignemale.Python.Env.{Env}

-- A database that the loaded app declares, and whether it has a directory of migrations.
pub record DeclaredDb : Type 0 where
  pub name : Text
  pub has_migrations : Bool

-- What the commands call. A process has a memory (`os.environ` and what the loaded app has
-- registered) and acts on a world that it shares with its children.
pub record Shell : Type 1 where
  pub World : Type 0
  pub Memory : Type 0
  pub extract : Text → World × Memory → Result Extraction × (World × Memory)
  pub provision_local : List Text → World × Memory → Result (Unit {0}) × (World × Memory)
  pub provision_buckets : List Text → World × Memory → Result (Unit {0}) × (World × Memory)
  pub load_app : Text → World × Memory → Result (Unit {0}) × (World × Memory)
  pub databases : Memory → List DeclaredDb
  -- `db.migrate()`: the number of migrations applied
  pub migrate : DeclaredDb → World × Memory → Result ℕ × (World × Memory)
  -- `serve(addr, reuse_port=…)`, until it is stopped
  pub serve : Text → Bool → World × Memory → Result (Unit {0}) × (World × Memory)

-- What `check_sql_queries` reads of a process in which an app is loaded, and what it changes: the
-- tables and queries that the app has registered, the environment, and the state of the tables.
pub record Registered (H : Shell) (C : Core) : Type 0 where
  pub tables : H.Memory → List TableClass
  pub queries : H.Memory → List SqlQuery
  pub env : H.Memory → Env
  pub state : H.World × H.Memory → Tables C
  pub with_state : Tables C → H.World × H.Memory → H.World × H.Memory

module _ (H : Shell) where
  abbrev pub Process : Type 0
  Process = H.World × H.Memory

  abbrev provision_declared : Extraction → Process → Result (Unit {0}) × Process
  provision_declared extracted p =
      let dbs =
        if is_empty extracted.databases
        then (ok tt, p)
        else H.provision_local extracted.databases p in
      and_then dbs (λ _ p'.
        if is_empty extracted.buckets
        then (ok tt, p')
        else H.provision_buckets extracted.buckets p')

  -- `_provision(path)`
  unfoldable pub provision : Text → Process → Result (Unit {0}) × Process
  provision path p = and_then (H.extract path p) provision_declared

  -- The loop of `_migrate`.
  unfoldable pub migrate_each : List DeclaredDb → Process → Result (Unit {0}) × Process
  migrate_each [] p = (ok tt, p)
  migrate_each (db ∷ dbs) p =
      let applied = and_then (H.migrate db p) (λ n p'. migrate_each dbs p') in
      let passed = migrate_each dbs p in if db.has_migrations then applied else passed

  -- `_migrate(path)`
  unfoldable pub migrate_all : Process → Result (Unit {0}) × Process
  unfolding migrate_each
  migrate_all p = migrate_each (H.databases p.1) p

  -- Provisioning, loading and migrating, in this order.
  unfoldable pub prepare_app : Text → Process → Result (Unit {0}) × Process
  unfolding provision migrate_all
  prepare_app path p =
      and_then (provision path p) (λ _ p1. and_then (H.load_app path p1) (λ _ p2. migrate_all p2))

  -- `_run_one(path, addr, reuse_port)`
  unfoldable pub run_one : Text → Text → Bool → Process → Result (Unit {0}) × Process
  run_one path addr reuse_port p = and_then (H.load_app path p) (λ _ p'. H.serve addr reuse_port p')

  -- A child works on a copy of the memory: what stays is the world. Its exit status is not looked at.
  unfoldable pub forked : (Process → Result (Unit {0}) × Process) → Process → Process
  forked child p = let (_, p') = child p in (p'.0, p.1)

  -- What a worker does after its fork.
  unfoldable pub worker : Text → Text → Process → Result (Unit {0}) × Process
  unfolding provision run_one
  worker path addr p = and_then (provision path p) (λ _ p'. run_one path addr true p')

  -- What `vignemale run` comes to: the process from which `_run_workers` forks its workers, and their
  -- number, or how serving in this process has ended.
  pub data RunMode : Type 0 where
    workers_from : Process → ℕ → RunMode
    served : Result (Unit {0}) × Process → RunMode

  -- `cmd_run(args)`; `workers` is int(VIGNEMALE_WORKERS).
  unfoldable pub cmd_run : Text → Text → ℕ → Process → RunMode
  unfolding prepare_app forked
  cmd_run path addr workers p =
      if ltb 1 workers
      then workers_from (forked (prepare_app path) p) workers
      else served (and_then (prepare_app path p) (λ _ p'. H.serve addr false p'))

  -- `_check_sql(path)` over `check_sql_queries`: how many queries are valid.
  unfoldable pub failures : List SqlReport → ℕ
  failures [] = 0
  failures (r ∷ reports) = elim r.outcome [
    | inl e ↦ failures reports + 1
    | inr v ↦ failures reports
  ]

  unfoldable pub sql_verdict : List SqlReport → Result ℕ
  unfolding failures print_nat
  sql_verdict reports =
      let failed = failures reports in
      if failed == 0
      then ok (length reports)
      else raise (
          system_exit (
            codes "vignemale: "
            ++ (print_nat failed
                ++ (b'/' ∷ print_nat (length reports) ++ codes " sql() query(ies) invalid"))))

  unfoldable pub check_sql : (C : Core) → Registered H C → Text → Process → Result ℕ × Process
  unfolding provision sql_verdict check_sql_queries
  check_sql C R path p = and_then (provision path p) (λ _ p1. and_then (H.load_app path p1) (λ _ p2.
      let (answer, s) =
        check_sql_queries C (R.env p2.1) (R.tables p2.1) (R.queries p2.1) (R.state p2) in
      and_then (answer, R.with_state s p2) (λ reports p3. (sql_verdict reports, p3))))

  -- `int(args.subject) if args.subject.isdigit() else args.subject`
  unfoldable pub subject_of : Text → Value
  unfolding all_digits parse_nat
  subject_of s = if all_digits s then int (pos (or_else (parse_nat s) 0)) else str s

  -- `cmd_gdpr(args)` for `map`: an `Exception` of the import is passed over, `SystemExit` is not.
  unfoldable pub gdpr_map :
      (H.Memory → List TableClass) → Text → Process → Result (List TableEntry) × Process
  unfolding data_map
  gdpr_map tables path p = shown (H.load_app path p)
    where
      shown : Result (Unit {0}) × Process → Result (List TableEntry) × Process
      shown (raise (system_exit e), p') = (raise (system_exit e), p')
      shown (_, p') = (ok (data_map (tables p'.1)), p')

  -- `cmd_gdpr(args)` for the two others: what it does after the subject is known.
  unfoldable pub gdpr_subject :
      {A : Type 0}
      → (Value → Process → Result A × Process)
      → Option Text
      → Text
      → Process
      → Result A × Process
  unfolding provision subject_of
  gdpr_subject act none path p =
      (raise (system_exit (codes "vignemale gdpr: --subject is required for export/forget")), p)
  gdpr_subject act (some s) path p =
      and_then (provision path p)
        (λ _ p1. and_then (H.load_app path p1) (λ _ p2. act (subject_of s) p2))
