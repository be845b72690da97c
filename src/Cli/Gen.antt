-- ===== src/Cli/Gen.antt =====
-- `vignemale_cli/gen.py`: the text of the typed clients.
pub mod Imports
use vignemale.Call.Http.{response}
use vignemale.Cli.Collect.Extract.{EndpointInfo, or_text}
use vignemale.Cli.Collect.Paths.{ServiceInfo}
use vignemale.Prelude.{
  List, Option, [], contains, extend_new, if◌then◌else◌, is_empty, keep, list_beq, nat_eq, none,
  not, opt_eq, pair_eq, some, ◌++◌, ◌||◌, ◌∷◌,
}
use vignemale.Prelude.Dict.{Dict, has_key, lookup}
use vignemale.Prelude.Text.{Text, codes, is_space, join, strip_both, text_eq}

abbrev builtins : List Text
builtins =
    codes "int" ∷ codes "str" ∷ codes "float" ∷ codes "bool" ∷ codes "dict" ∷ codes "list" ∷ []

-- The model modules: which names are models, and where they come from.
abbrev pub Modules : Type 0
Modules = Dict Text Text

-- `_annotation(type_str, models)`
unfoldable pub annotation : Option Text → Modules → Text
unfolding strip_both list_beq
annotation none models = codes "Any"
annotation (some type_str) models =
    let t = strip_both is_space type_str in
    if contains t builtins || has_key t models then t else codes "Any"

-- A function's arguments, the arguments of its call, and the models that it imports.
pub record Rendered : Type 0 where
  pub args : List Text
  pub call_args : List Text
  pub imports : List Text

abbrev pub import_model : Text → Modules → List Text → List Text
import_model t models imports = if has_key t models then extend_new imports (t ∷ []) else imports

-- The loop over the parameters.
unfoldable pub render_params : Dict Text (Option Text) → Modules → Rendered → Rendered
unfolding annotation extend_new
render_params [] models r = r
render_params ((pname, ptype) ∷ params) models r =
    let ann = annotation ptype models in
    render_params params models (record {
      args = r.args ++ ((pname ++ codes ": " ++ ann) ∷ []);
      call_args = r.call_args ++ ((pname ++ codes "=" ++ pname) ∷ []);
      imports = import_model ann models r.imports;
    })

unfoldable pub render_body : Option Text → Modules → Rendered → Rendered
unfolding annotation extend_new
render_body request models r = elim (or_text request none) [
  | none ↦ r
  | some t ↦
      let req = annotation (some t) models in
      record {
        args =
            r.args
            ++ ((if has_key req models
                  then codes "body: " ++ req ++ codes " | dict"
                  else codes "body: dict")
                ∷ []);
        call_args = r.call_args ++ (codes "body=body" ∷ []);
        imports = import_model req models r.imports;
      }
]

abbrev shown : Option Text → Text
shown none = codes "None"
shown (some t) = t

-- `", ".join(args) if args != ["*"] else ""`
abbrev signature_of : List Text → Text
signature_of [] = []
signature_of (a ∷ args) = join (codes ", ") (codes "*" ∷ a ∷ args)

abbrev call_expr : Text → Text → List Text → Text
call_expr service name call_args =
    codes "call(\""
    ++ service
    ++ codes "\", \""
    ++ name
    ++ codes "\""
    ++ (if is_empty call_args then [] else codes ", " ++ join (codes ", ") call_args)
    ++ codes ")"

-- The return type, and the line that returns.
abbrev returns : Option Text → Modules → Text → Text × Text
returns none models expr = (codes "dict", codes "    return " ++ expr)
returns (some resp) models expr = elim (lookup resp models) [
  | none ↦ (codes "dict", codes "    return " ++ expr)
  | some m ↦ (
    resp,
    codes "    return validate_model(\""
        ++ m
        ++ codes "\", \""
        ++ resp
        ++ codes "\", "
        ++ expr
        ++ codes ")",
  )
]

abbrev pub import_response : Option Text → Modules → List Text → List Text
import_response none models imports = imports
import_response (some resp) models imports = import_model resp models imports

-- `_function(service, ep, models, imports)`: the text, and the imports after it.
unfoldable pub render_function : Text → EndpointInfo → Modules → List Text → Text × List Text
unfolding render_params render_body extend_new
render_function service e models imports =
    let r =
      render_body e.request models
        (render_params e.params models (record { args = []; call_args = []; imports = imports })) in
    let (ret, body_line) = returns e.response models (call_expr service e.name r.call_args) in
    (
      codes "\n\ndef "
          ++ e.name
          ++ codes "("
          ++ signature_of r.args
          ++ codes ") -> "
          ++ ret
          ++ codes ":\n    \"\"\""
          ++ shown e.method
          ++ codes " "
          ++ shown e.path
          ++ codes "\"\"\"\n"
          ++ body_line
          ++ codes "\n",
      import_response e.response models r.imports,
    )

-- The functions of a service, one after the other.
unfoldable pub render_functions : Text → List EndpointInfo → Modules → List Text → Text × List Text
unfolding render_function
render_functions service [] models imports = ([], imports)
render_functions service (e ∷ endpoints) models imports =
    let (text, imports1) = render_function service e models imports in
    let (rest, imports2) = render_functions service endpoints models imports1 in
    (text ++ rest, imports2)

-- The files of `generate`, by name in `vignemale_clients`, without their headers and imports: one
-- for each service with an endpoint that does not stream, with its imports.
unfoldable pub client_files : List ServiceInfo → Modules → List (Text × (Text × List Text))
unfolding render_functions
client_files [] models = []
client_files (s ∷ services) models =
    let rest = client_files services models in
    let endpoints = keep (λ e. not e.stream) s.endpoints in
    if is_empty endpoints
    then rest
    else (s.name ++ codes ".py", render_functions s.name endpoints models []) ∷ rest
