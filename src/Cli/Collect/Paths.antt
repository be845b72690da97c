-- ===== src/Cli/Collect/Paths.antt =====
-- `extract_path` of `vignemale_cli/collect.py`: the modules of an app, one service each. griffe's
-- `load` is a parameter; a directory's listing comes sorted by name.
pub mod Names
use vignemale.Cli.Collect.Extract.{EndpointInfo, Extracted, FieldInfo, extract_module, or_text}
use vignemale.Cli.Collect.Syntax.{Members}
use vignemale.Prelude.{
  Bool, List, Option, [], extend_new, if◌then◌else◌, is_empty, is_some, length, list_beq, nat_eq,
  none, not, opt_eq, or_else, pair_eq, some, take, ◌&&◌, ◌++◌, ◌-◌, ◌==◌, ◌||◌, ◌∷◌,
}
use vignemale.Prelude.Dict.{Dict, update}
use vignemale.Prelude.Text.{Text, codes, ends_with, starts_with, text_eq}

pub record DirEntry : Type 0 where
  pub name : Text
  pub is_dir : Bool
  pub has_init : Bool

-- f.endswith(".py") and not f.startswith("_")
unfoldable pub is_module_file : Text → Bool
unfolding ends_with
is_module_file f = ends_with f (codes ".py") && not (starts_with f (codes "_"))

unfoldable pub is_service_dir : DirEntry → Bool
unfolding starts_with list_beq
is_service_dir d =
    d.is_dir
    && not (starts_with d.name (codes "_") || starts_with d.name (codes "."))
    && not (d.name == codes "vignemale_clients")
    && d.has_init

unfoldable pub module_names : List DirEntry → List Text
unfolding is_module_file is_service_dir
module_names [] = []
module_names (d ∷ rest) =
    let names = module_names rest in
    if is_module_file d.name
    then take (length d.name - 3) d.name ∷ names
    else if is_service_dir d
    then d.name ∷ names
    else names

pub record ServiceInfo : Type 0 where
  pub name : Text
  pub endpoints : List EndpointInfo
  pub databases : List Text
  pub buckets : List Text

-- The dict that `extract_path` returns.
pub record Extraction : Type 0 where
  pub services : List ServiceInfo
  pub models : Dict Text (Dict Text FieldInfo)
  pub model_modules : Dict Text Text
  pub databases : List Text
  pub buckets : List Text
  pub secrets : List Text
  pub auth_handler : Option (Text × Text)

abbrev pub empty_extraction : Extraction
empty_extraction = record {
  services = [];
  models = [];
  model_modules = [];
  databases = [];
  buckets = [];
  secrets = [];
  auth_handler = none;
}

-- `svc or modname`
unfoldable pub service_name : Option Text → Text → Text
unfolding or_text
service_name svc modname = or_else (or_text svc none) modname

abbrev truthy_name : Option Text → Bool
truthy_name o = is_some (or_text o none)

-- `if eps or svc:`
unfoldable pub add_service : Text → Extracted → List ServiceInfo → List ServiceInfo
unfolding service_name
add_service modname x services =
    if not (is_empty x.endpoints) || truthy_name x.service
    then services
      ++ (record {
        name = service_name x.service modname;
        endpoints = x.endpoints;
        databases = x.databases;
        buckets = x.buckets;
      }
          ∷ [])
    else services

-- `if auth_fn and auth_handler is None:`
unfoldable pub add_auth : Text → Extracted → Option (Text × Text) → Option (Text × Text)
unfolding service_name
add_auth modname x (some handler) = some handler
add_auth modname x none = elim (or_text x.auth_fn none) [
  | none ↦ none
  | some f ↦ some (f, service_name x.service modname)
]

-- One turn of the loop over `modnames`.
unfoldable pub add_module : Text → Extracted → Extraction → Extraction
unfolding add_service add_auth
add_module modname x e = record {
  services = add_service modname x e.services;
  models = update e.models x.models;
  model_modules = update e.model_modules x.model_modules;
  databases = extend_new e.databases x.databases;
  buckets = extend_new e.buckets x.buckets;
  secrets = extend_new e.secrets x.secrets;
  auth_handler = add_auth modname x e.auth_handler;
}

module _ (load : Text → Members) where
  unfoldable pub extract_modules : List Text → Extraction → Extraction
  unfolding add_module
  extract_modules [] e = e
  extract_modules (m ∷ rest) e = extract_modules rest (add_module m (extract_module m (load m)) e)

  -- `extract_path` of a directory
  unfoldable pub extract_dir : List DirEntry → Extraction
  unfolding extract_modules module_names
  extract_dir entries = extract_modules (module_names entries) empty_extraction
