-- ===== src/Cli/Build.antt =====
-- `vignemale_cli/build.py`: the Docker image of an app. The file system, Docker and standard output
-- are parameters; the progress messages are left out.
pub mod Context
pub mod Dockerfile
pub mod Names
use vignemale.Cli.Build.Dockerfile.{dockerfile_fast, dockerfile_source}
use vignemale.Prelude.{
  Bool, List, Option, [], contains, if◌then◌else◌, is_some, map, nat_eq, none, not, opt_eq, or_else,
  pair_eq, some, ℕ, ◌&&◌, ◌++◌, ◌==◌, ◌||◌, ◌∷◌,
}
use vignemale.Prelude.Dict.{lookup}
use vignemale.Prelude.Text.{Text, codes, is_alnum, lower, text_eq}
use vignemale.Python.{Result, and_then, ok, raise, system_exit}
use vignemale.Python.Env.{Env, get_env}
use vignemale.Python.Path.{basename, join_path, stem}

-- The operations may raise, an `OSError` for instance.
pub record Host : Type 1 where
  pub State : Type 0
  pub abspath : Text → Text
  pub is_dir : Text → State → Bool
  pub is_file : Text → State → Bool
  -- shutil.copytree(src, dst, ignore=_IGNORE)
  pub copy_tree : Text → Text → State → Result (Unit {0}) × State
  pub copy_file : Text → Text → State → Result (Unit {0}) × State
  pub make_dirs : Text → State → Result (Unit {0}) × State
  pub write : Text → Text → State → Result (Unit {0}) × State
  -- tempfile.mkdtemp(prefix=…), and shutil.rmtree(path, ignore_errors=True)
  pub temp_dir : Text → State → Result Text × State
  pub remove_tree : Text → State → State
  pub print : Text → State → State
  -- shutil.which("docker"), and the exit code of a command
  pub has_docker : Bool
  pub run : List Text → State → ℕ × State

-- The arguments of `build` after the path.
pub record BuildOptions : Type 0 where
  pub tag : Option Text
  pub print_only : Bool
  pub from_source : Bool
  pub base : Option Text
  pub platform : Option Text
  pub push : Bool

-- The value of an option where an empty text counts as none.
abbrev pub given : Option Text → Option Text
given none = none
given (some []) = none
given (some (c ∷ s)) = some (c ∷ s)

unfoldable pub image_char : ℕ → ℕ
image_char c = if is_alnum c || contains c (codes "-_") then c else b'-'

-- `_sanitize(name)`; `isalnum` and `lower` are those of ASCII.
unfoldable pub image_name : Text → Text
unfolding image_char lower
image_name name = map image_char (lower name)

-- DEFAULT_BASE_IMAGE
unfoldable pub default_base : Env → Text
default_base env =
    or_else (lookup (codes "VIGNEMALE_BASE_IMAGE") env)
      (codes "ghcr.io/vignemale-org/vignemale-python:latest")

-- _SRC_PARTS
abbrev pub src_parts : List Text
src_parts = codes "Cargo.toml" ∷ codes "Cargo.lock" ∷ codes "runtimes" ∷ codes "proto" ∷ []

-- The command of the build: `buildx` for a platform or a push.
unfoldable pub build_command : Text → Option Text → Bool → Text → List Text
build_command tag platform push ctx =
    let platform_args : List Text = elim (given platform) [
      | none ↦ []
      | some p ↦ codes "--platform" ∷ p ∷ []
    ] in
    if is_some (given platform) || push
    then (codes "docker" ∷ codes "buildx" ∷ codes "build" ∷ [])
      ++ (platform_args
          ++ (codes "-t" ∷ tag ∷ (if push then codes "--push" else codes "--load") ∷ ctx ∷ []))
    else codes "docker" ∷ codes "build" ∷ codes "-t" ∷ tag ∷ ctx ∷ []

-- The path of `src` in a context.
abbrev pub ignore_file : Text
ignore_file = codes "**/target\n**/.venv\n**/__pycache__\n**/.git\n"

-- The environment, and the directory above the package from which `_repo_root` looks for the sources.
module _ (H : Host) (env : Env) (here : Text) where
  -- `_repo_root()`
  unfoldable pub repo_root : H.State → Result Text
  unfolding get_env join_path
  repo_root s = elim (get_env (codes "VIGNEMALE_SRC") env) [
    | some override ↦ ok (H.abspath override)
    | none ↦
        if H.is_file (join_path here (codes "Cargo.toml")) s
          && H.is_dir (join_path here (codes "runtimes")) s
        then ok here
        else raise (
            system_exit (
              codes
                "vignemale build --from-source: vignemale source not found (Cargo workspace + runtimes/). Set VIGNEMALE_SRC to the root of the vignemale repo."))
  ]

  -- `_stage_app(app_path, ctx)`
  unfoldable pub stage_app : Text → Text → H.State → Result Text × H.State
  unfolding join_path basename
  stage_app app_path ctx s =
      let path = H.abspath app_path in
      let appdir = join_path ctx (codes "app") in
      let copied = and_then (H.copy_tree path appdir s) (λ _ s1. (ok (codes "/app"), s1)) in
      let filed = and_then (H.make_dirs appdir s) (λ _ s1.
        and_then (H.copy_file path appdir s1)
          (λ _ s2. (ok (codes "/app/" ++ basename path), s2))) in
      if H.is_dir path s
      then copied
      else if H.is_file path s
      then filed
      else (raise (system_exit (codes "vignemale build: app not found: " ++ path)), s)

  -- The loop of `_stage_src`.
  unfoldable pub stage_parts : Text → Text → List Text → H.State → Result (Unit {0}) × H.State
  unfolding join_path
  stage_parts root src [] s = (ok tt, s)
  stage_parts root src (part ∷ parts) s =
      let from_path = join_path root part in
      let to_path = join_path src part in
      let copied =
        if H.is_dir from_path s
        then H.copy_tree from_path to_path s
        else if H.is_file from_path s
        then H.copy_file from_path to_path s
        else (
          raise (
              system_exit
                (codes "vignemale build: \"" ++ (part ++ (codes "\" missing in " ++ root)))),
          s,
        ) in
      and_then copied (λ _ s'. stage_parts root src parts s')

  -- `_stage_src(ctx)`
  unfoldable pub stage_src : Text → H.State → Result (Unit {0}) × H.State
  unfolding repo_root stage_parts join_path
  stage_src ctx s =
      and_then (repo_root s, s)
        (λ root s1.
          let src = join_path ctx (codes "src") in
          and_then (H.make_dirs src s1) (λ _ s2. stage_parts root src src_parts s2))

  -- The Dockerfile; the sources are staged first, if they are needed.
  unfoldable pub dockerfile : BuildOptions → Text → Text → Text → H.State → Result Text × H.State
  unfolding stage_src dockerfile_source dockerfile_fast
  dockerfile o base ctx container_app s =
      let from_source =
        and_then (stage_src ctx s) (λ _ s'. (ok (dockerfile_source container_app), s')) in
      if o.from_source then from_source else (ok (dockerfile_fast container_app base), s)

  -- The context, filled: its Dockerfile.
  unfoldable pub fill_context : BuildOptions → Text → Text → Text → H.State → Result Text × H.State
  unfolding stage_app dockerfile join_path
  fill_context o base app_path ctx s = and_then (stage_app app_path ctx s) (λ container_app s1.
      and_then (dockerfile o base ctx container_app s1) (λ text s2.
        and_then (H.write (join_path ctx (codes "Dockerfile")) text s2) (λ _ s3.
          and_then (H.write (join_path ctx (codes ".dockerignore")) ignore_file s3)
            (λ _ s4. (ok text, s4)))))

  abbrev print_dockerfile : Text → Text → Text → H.State → H.State
  print_dockerfile text tag ctx s =
      H.print (codes "# manual build:  docker build -t " ++ (tag ++ (b' ' ∷ ctx)))
        (H.print (codes "# build context ready: " ++ ctx) (H.print text s))

  -- Docker's turn.
  unfoldable pub run_build : BuildOptions → Text → Text → Text → H.State → Result Text × H.State
  unfolding build_command
  run_build o base tag ctx s =
      let (code, s') = H.run (build_command tag o.platform o.push ctx) s in
      let hint =
        codes "\n  (is the base image "
        ++ (base ++ codes " reachable? `docker login ghcr.io`, or `--from-source`)") in
      if not H.has_docker
      then (raise (system_exit (codes "vignemale build: Docker required (https://docker.com)")), s)
      else if code == 0
      then (ok tag, s')
      else (
        raise (
            system_exit
              (codes "vignemale build: build failed" ++ (if o.from_source then [] else hint))),
        s',
      )

  -- The body of the `try`.
  unfoldable pub build_in :
      BuildOptions → Text → Text → Text → Text → H.State → Result Text × H.State
  unfolding fill_context run_build
  build_in o base tag app_path ctx s = and_then (fill_context o base app_path ctx s) (λ text s'.
      let built = run_build o base tag ctx s' in
      if o.print_only then (ok tag, print_dockerfile text tag ctx s') else built)

  abbrev base_of : BuildOptions → Text
  base_of o = or_else (given o.base) (default_base env)

  unfoldable pub tag_of : BuildOptions → Text → Text
  unfolding image_name stem basename
  tag_of o app_path =
      or_else o.tag (
        codes "vignemale-"
        ++ (image_name (stem (basename (H.abspath app_path))) ++ codes ":latest"))

  -- The `finally`: the context is kept only for `--print`.
  unfoldable pub clean_up : Bool → Text → Result Text × H.State → Result Text × H.State
  clean_up keeps ctx (r, s) = (r, if keeps then s else H.remove_tree ctx s)

  -- `build(app_path, …)`: the tag of the image
  unfoldable pub build : BuildOptions → Text → H.State → Result Text × H.State
  unfolding build_in tag_of clean_up
  build o app_path s = and_then (H.temp_dir (codes "vignemale-build-") s) (λ ctx s1.
      clean_up o.print_only ctx (build_in o (base_of o) (tag_of o app_path) app_path ctx s1))
