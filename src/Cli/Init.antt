-- ===== src/Cli/Init.antt =====
-- `vignemale_cli/init.py`: a new app. The messages on standard output and error are left out.
pub mod Templates
pub mod Guard
use vignemale.Cli.Files.{Files}
use vignemale.Cli.Init.Templates.{app_py, gitignore, pyproject, readme}
use vignemale.Cli.Link.{slug}
use vignemale.Prelude.{
  Bool, List, [], any, if◌then◌else◌, is_empty, list_beq, nat_eq, opt_eq, pair_eq, ℕ, ◌==◌, ◌||◌,
  ◌∷◌,
}
use vignemale.Prelude.Text.{Text, codes, text_eq}
use vignemale.Python.{Result, and_then, ok}
use vignemale.Python.Path.{basename, join_path}

-- `_slug(name)`; the expression is that of `vignemale_cli/link.py`.
unfoldable pub init_slug : Text → Text
unfolding slug
init_slug name = slug name

-- `name in (".", "")`
unfoldable pub is_here : Text → Bool
unfolding list_beq
is_here name = (name == codes ".") || is_empty name

-- The files, by their name in the project.
unfoldable pub project_files : Text → List (Text × Text)
unfolding app_py pyproject readme
project_files app =
    (codes "app.py", app_py app app)
    ∷ (codes "pyproject.toml", pyproject app)
    ∷ (codes ".gitignore", gitignore)
    ∷ (codes "README.md", readme app app)
    ∷ []

-- The files that are never overwritten.
abbrev pub guarded : List Text
guarded = codes "app.py" ∷ codes "pyproject.toml" ∷ []

module _ (F : Files) where
  unfoldable pub project_name : Text → Text → Text
  unfolding init_slug basename is_here
  project_name name path =
      if is_here name then init_slug (basename (F.abspath path)) else init_slug name

  unfoldable pub project_target : Text → Text → Text
  unfolding init_slug join_path is_here
  project_target name path =
      if is_here name then F.abspath path else F.abspath (join_path path (init_slug name))

  -- The loop that writes.
  unfoldable pub write_files : Text → List (Text × Text) → F.State → Result (Unit {0}) × F.State
  unfolding join_path
  write_files target [] s = (ok tt, s)
  write_files target ((rel, content) ∷ files) s =
      and_then (F.write (join_path target rel) content s) (λ _ s'. write_files target files s')

  -- The steps after the directory exists: the exit code.
  unfoldable pub write_project : Text → Text → F.State → Result ℕ × F.State
  unfolding write_files project_files join_path
  write_project target app s =
      if is_empty app
      then (ok 1, s)
      else if any (λ guard. F.exists (join_path target guard) s) guarded
      then (ok 1, s)
      else and_then (write_files target (project_files app) s) (λ _ s'. (ok 0, s'))

  -- The current directory is there; another is created, if the app has a name.
  unfoldable pub create_project : Bool → Text → Text → F.State → Result ℕ × F.State
  unfolding write_project
  create_project here target app s =
      if here
      then write_project target app s
      else if is_empty app
      then (ok 1, s)
      else and_then (F.make_dirs target s) (λ _ s'. write_project target app s')

  -- `init(name, path)`
  unfoldable pub init : Text → Text → F.State → Result ℕ × F.State
  unfolding create_project project_name project_target is_here
  init name path s =
      create_project (is_here name) (project_target name path) (project_name name path) s
