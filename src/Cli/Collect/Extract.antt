-- ===== src/Cli/Collect/Extract.antt =====
-- `_extract_module` of `vignemale_cli/collect.py`.
use vignemale.Cli.Collect.Syntax.{
  Attribute, Call, Class, Decorator, FunctionInfo, Member, Members, as_text, attribute, bare, call,
  calls, class, done, first_arg, function, keywords, lit, member, name_of, submodule, unknown,
}
use vignemale.Prelude.{
  Bool, List, Option, [], any, contains, extend_new, false, if◌then◌else◌, is_some, list_beq,
  nat_eq, none, not, opt_eq, or_else, pair_eq, some, true, ◌&&◌, ◌++◌, ◌==◌, ◌∷◌,
}
use vignemale.Prelude.Dict.{Dict, insert, lookup, restrict, update}
use vignemale.Prelude.Text.{Text, codes, occurs, starts_with, text_eq}
use vignemale.Python.{Value, bool, null, truthy}

pub record FieldInfo : Type 0 where
  pub annotation : Option Text
  pub required : Bool
  pub default : Value

pub record EndpointInfo : Type 0 where
  pub name : Text
  pub method : Option Text
  pub path : Option Text
  pub stream : Bool
  pub auth : Bool
  pub expose : Bool
  pub request : Option Text
  pub response : Option Text
  pub params : Dict Text (Option Text)

-- The tuple that `_extract_module` returns.
pub record Extracted : Type 0 where
  pub service : Option Text
  pub endpoints : List EndpointInfo
  pub models : Dict Text (Dict Text FieldInfo)
  pub databases : List Text
  pub auth_fn : Option Text
  pub model_modules : Dict Text Text
  pub buckets : List Text
  pub secrets : List Text

abbrev pub nothing : Extracted
nothing = record {
  service = none;
  endpoints = [];
  models = [];
  databases = [];
  auth_fn = none;
  model_modules = [];
  buckets = [];
  secrets = [];
}

-- `a or b` of texts that may be `None`
unfoldable pub or_text : Option Text → Option Text → Option Text
or_text none b = b
or_text (some []) b = b
or_text (some (c ∷ s)) b = some (c ∷ s)

unfoldable pub is_pydantic : Class → Bool
unfolding occurs
is_pydantic c = any (occurs (codes "BaseModel")) c.bases

-- The fields of a Pydantic class.
unfoldable pub class_fields : List (Text × Attribute) → Dict Text FieldInfo
unfolding lit insert starts_with
class_fields [] = []
class_fields ((n, a) ∷ rest) =
    let fields = class_fields rest in
    if a.is_attribute && not (starts_with n (codes "_"))
    then (
      n,
      record { annotation = a.annotation; required = not (is_some a.value); default = lit a.value },
    )
      ∷ fields
    else fields

abbrev add_name : Option Text → List Text → List Text
add_name none names = names
add_name (some n) names = names ++ (n ∷ [])

-- The database that a table class declares by `__database__`.
unfoldable pub class_database : Class → Option Text
unfolding name_of lit list_beq
class_database c = elim (lookup (codes "__database__") c.members) [
  | none ↦ none
  | some a ↦ if a.is_attribute then name_of (lit a.value) else none
]

unfoldable pub on_class : Text → Text → Class → Extracted → Extracted
unfolding is_pydantic class_fields class_database insert extend_new
on_class path name c x =
    if is_pydantic c
    then record x {
      models = insert name (class_fields c.members) x.models;
      model_modules = insert name path x.model_modules;
    }
    else record x { databases = extend_new x.databases (add_name (class_database c) []) }

unfoldable pub on_call : Call → Extracted → Extracted
unfolding first_arg name_of calls
on_call c x =
    let arg = first_arg c.arguments in
    if calls (codes "Service") c.function
    then record x { service = as_text arg }
    else if calls (codes "SQLDatabase") c.function
    then record x { databases = add_name (name_of arg) x.databases }
    else if calls (codes "Bucket") c.function
    then record x { buckets = add_name (name_of arg) x.buckets }
    else if calls (codes "Secret") c.function
    then record x { secrets = add_name (name_of arg) x.secrets }
    else x

-- The annotation of the parameter `body`.
unfoldable pub request_of : List (Text × Option Text) → Option Text
unfolding list_beq
request_of [] = none
request_of ((n, none) ∷ rest) = request_of rest
request_of ((n, some t) ∷ rest) = if n == codes "body" then some t else request_of rest

abbrev runtime_params : List Text
runtime_params = codes "body" ∷ codes "stream" ∷ codes "auth" ∷ codes "query" ∷ codes "headers" ∷ []

abbrev flag : Text → Bool → Dict Text Value → Bool
flag k default kw = truthy (or_else (lookup k kw) (bool default))

abbrev text_arg : Text → Dict Text Value → Option Text
text_arg k kw = as_text (or_else (lookup k kw) null)

unfoldable pub endpoint_info : Text → FunctionInfo → Call → EndpointInfo
unfolding request_of restrict keywords truthy list_beq
endpoint_info name f c =
    let kw = keywords c.arguments in
    record {
      name = name;
      method = text_arg (codes "method") kw;
      path = text_arg (codes "path") kw;
      stream = flag (codes "stream") false kw;
      auth = flag (codes "auth") false kw;
      expose = flag (codes "expose") true kw;
      request = request_of f.params;
      response = f.returns;
      params = restrict (λ p. not (contains p runtime_params)) f.params;
    }

unfoldable pub on_decorator : Text → FunctionInfo → Decorator → Extracted → Extracted
unfolding calls endpoint_info
on_decorator name f (bare d) x =
    if calls (codes "auth_handler") d then record x { auth_fn = some name } else x
on_decorator name f (call c) x =
    if calls (codes "api") c.function
    then record x { endpoints = x.endpoints ++ (endpoint_info name f c ∷ []) }
    else x

unfoldable pub on_decorators : Text → FunctionInfo → List Decorator → Extracted → Extracted
unfolding on_decorator
on_decorators name f [] x = x
on_decorators name f (d ∷ ds) x = on_decorators name f ds (on_decorator name f d x)

-- A submodule's extraction, aggregated.
unfoldable pub merge : Extracted → Extracted → Extracted
unfolding or_text update extend_new
merge x sub = record {
  service = or_text x.service sub.service;
  endpoints = x.endpoints ++ sub.endpoints;
  models = update x.models sub.models;
  databases = extend_new x.databases sub.databases;
  auth_fn = or_text x.auth_fn sub.auth_fn;
  model_modules = update x.model_modules sub.model_modules;
  buckets = extend_new x.buckets sub.buckets;
  secrets = extend_new x.secrets sub.secrets;
}

-- One turn of the loop over `mod.members.items()`, and the loop.
unfoldable mutual
  pub extract_member : Text → Text → Member → Extracted → Extracted
  extract_member path name (submodule sub_path members) x =
      merge x (extract_members sub_path members nothing)
  extract_member path name (class c) x = on_class path name c x
  extract_member path name (attribute none) x = x
  extract_member path name (attribute (some c)) x = on_call c x
  extract_member path name (function f) x = on_decorators name f f.decorators x
  extract_member path name unknown x = x

  pub extract_members : Text → Members → Extracted → Extracted
  extract_members path done x = x
  extract_members path (member name m rest) x =
      extract_members path rest (extract_member path name m x)

-- `_extract_module(mod)`
unfoldable pub extract_module : Text → Members → Extracted
unfolding extract_members
extract_module path members = extract_members path members nothing
