-- ===== src/Tests/Commands.antt =====
-- `vignemale_cli/cli.py`, `vignemale_cli/build.py` and `vignemale_cli/init.py`.
use mathlib.Core.Path.{subst}
use vignemale.Cli.Build.{
  BuildOptions, Host, build, build_command, build_in, clean_up, dockerfile, fill_context, run_build,
  stage_app, tag_of,
}
use vignemale.Cli.Build.Context.{build-ok}
use vignemale.Cli.Collect.Paths.{empty_extraction}
use vignemale.Cli.Commands.{
  Process, Registered, RunMode, Shell, cmd_run, migrate_all, migrate_each, prepare_app, provision,
}
use vignemale.Cli.Commands.Run.{Migrated, cmd_run-Migrated}
use vignemale.Cli.Files.{Files, Frames}
use vignemale.Cli.Init.{init, init_slug, is_here, project_target}
use vignemale.Cli.Init.Guard.{init-keeps}
use vignemale.Cli.Link.{dashed, slug}
use vignemale.Datamodel.Columns.{TableClass}
use vignemale.Datamodel.Table.{Core, SqlQuery}
use vignemale.Prelude.{
  Bool, [], ap, false, inl, inr, is_some, list_beq, nat_eq, none, opt_eq, pair_eq, refl, some, sym,
  true, ℕ, ◌++◌, ◌+◌, ◌-◌, ◌∷◌, ◌≡◌,
}
use vignemale.Prelude.Dict.{Dict, has_key, insert, lookup}
use vignemale.Prelude.Text.{
  Text, codes, drop_while, ends_with, lower, starts_with, strip_both, strip_right, text_eq,
  to_lower,
}
use vignemale.Python.{null, ok, raise, sql_error, str}
use vignemale.Python.Path.{join_path}

-- A shell in which everything succeeds, but for a migration.
abbrev shell : Shell
shell = record {
  World = ℕ;
  Memory = Bool;
  extract = λ path p. (ok empty_extraction, p);
  provision_local = λ dbs p. (ok tt, p);
  provision_buckets = λ bs p. (ok tt, p);
  load_app = λ path p. (ok tt, (p.0 + 1, true));
  databases = λ m. record { name = codes "d"; has_migrations = true } ∷ [];
  migrate = λ db p. (raise (sql_error (codes "bad")), p);
  serve = λ addr reuse p. (ok tt, p);
}

prepare_fails :
    prepare_app shell (codes "app.py") (0, false) ≡ (raise (sql_error (codes "bad")), (1, true))
unfolding prepare_app provision migrate_all migrate_each
prepare_fails = refl

-- The same shell with migrations that succeed.
abbrev good_shell : Shell
good_shell = record shell { migrate = λ db p. (ok 1, (p.0 + 1, p.1)) }

run_serves :
    cmd_run good_shell (codes "app.py") (codes ":8080") 1 (0, false)
    ≡ RunMode.served (ok tt, (2, true))
unfolding cmd_run prepare_app provision migrate_all migrate_each
run_serves = refl

cmd_run-Migrated_example :
    (made loaded migrated : Process good_shell) × (provision good_shell (codes "app.py") (0, false)
      ≡ (ok tt, made))
    × (good_shell.load_app (codes "app.py") made ≡ (ok tt, loaded))
    × Migrated good_shell (good_shell.databases loaded.1) loaded migrated
    × (good_shell.serve (codes ":8080") false migrated ≡ (ok tt, (2, true)))
cmd_run-Migrated_example =
    cmd_run-Migrated good_shell (codes "app.py") (codes ":8080") 1 (0, false) (2, true) run_serves

-- A core that answers every query.
abbrev answering : Core
answering = record {
  State = ℕ;
  orm = λ url spec q c. (inr null, c);
  prepare = λ url query c. inr (str query);
}

abbrev user_class : TableClass
user_class = record {
  model_module = codes "app";
  model_name = codes "User";
  tablename = codes "users";
  database = codes "d";
  subject = [];
  on_forget = [];
  columns = [];
}

abbrev adults : SqlQuery
adults = record { owner = user_class; attribute_name = codes "adults"; compiled = codes "SELECT 1" }

abbrev registered_app : Registered shell answering
registered_app = record {
  tables = λ m. user_class ∷ [];
  queries = λ m. adults ∷ [];
  env = λ m. (codes "VIGNEMALE_SQLDB_D", codes "postgres://d") ∷ [];
  state = λ p. record { core = p.0; ensured = []; databases = [] };
  with_state = λ s p. p;
}

-- A host that counts the contexts that are there.
abbrev host : Host
host = record {
  State = ℕ;
  abspath = λ p. codes "/" ++ p;
  is_dir = λ p s. true;
  is_file = λ p s. false;
  copy_tree = λ a b s. (ok tt, s);
  copy_file = λ a b s. (ok tt, s);
  make_dirs = λ p s. (ok tt, s);
  write = λ p text s. (ok tt, s);
  temp_dir = λ prefix s. (ok (codes "/tmp/x"), s + 1);
  remove_tree = λ p s. s - 1;
  print = λ text s. s;
  has_docker = true;
  run = λ args s. (0, s);
}

abbrev plain_build : BuildOptions
plain_build = record {
  tag = some (codes "shop:1");
  print_only = false;
  from_source = false;
  base = none;
  platform = none;
  push = true;
}

build_runs : build host [] (codes "/src") plain_build (codes "shop") 0 ≡ (ok (codes "shop:1"), 0)
unfolding build build_in fill_context stage_app dockerfile run_build tag_of clean_up build_command
    join_path starts_with ends_with
build_runs = refl

build-ok_example :
    (true ≡ true)
    × (codes "shop:1" ≡ tag_of host [] (codes "/src") plain_build (codes "shop"))
    × ((ctx : Text) × (u : ℕ) × ((host.run (build_command (codes "shop:1") none true ctx) u).0 ≡ 0)
        × (0 ≡ host.remove_tree ctx (host.run (build_command (codes "shop:1") none true ctx) u).1))
build-ok_example =
    build-ok host [] (codes "/src") plain_build (codes "shop") (codes "shop:1") 0 0 refl build_runs

-- A directory with an `app.py`, as texts by path.
abbrev disk : Files
disk = record {
  State = Dict Text Text;
  abspath = λ p. p;
  exists = λ p s. has_key p s;
  is_file = λ p s. has_key p s;
  make_dirs = λ p s. (ok tt, s);
  content = λ p s. lookup p s;
  write = λ p text s. (ok tt, insert p text s);
}

disk-Frames : Frames disk
disk-Frames = record { present = λ p text s h. ap is_some h; make_dirs_same = λ p q s. refl }

abbrev old_app : Dict Text Text
old_app = (codes "./shop/app.py", codes "mine") ∷ []

shop_target : project_target disk (codes "Shop") (codes ".") ≡ codes "./shop"
unfolding project_target is_here init_slug slug dashed lower to_lower strip_both strip_right
    drop_while join_path starts_with ends_with list_beq
shop_target = refl

shop-there :
    lookup (join_path (project_target disk (codes "Shop") (codes ".")) (codes "app.py")) old_app
    ≡ some (codes "mine")
unfolding join_path starts_with ends_with list_beq
shop-there =
    subst (λ t. lookup (join_path t (codes "app.py")) old_app ≡ some (codes "mine"))
      (sym shop_target) refl

init-keeps_example :
    lookup
      (join_path (project_target disk (codes "Shop") (codes ".")) (codes "app.py"))
      (init disk (codes "Shop") (codes ".") old_app).1
    ≡ some (codes "mine")
init-keeps_example =
    init-keeps disk disk-Frames (codes "Shop") (codes ".") (codes "app.py") (codes "mine") old_app
      (inl refl) shop-there
