-- ===== src/Api/Registry.antt =====
-- What the decorators of `vignemale/api.py` and the constructor of `vignemale/service.py` register.
use vignemale.Prelude.{
  Bool, List, Option, [], any, if◌then◌else◌, list_beq, nat_eq, none, opt_eq, pair_eq, some, ℕ,
  ◌++◌, ◌==◌, ◌||◌, ◌∷◌,
}
use vignemale.Prelude.Dict.{Dict}
use vignemale.Prelude.Text.{Text, codes, starts_with, text_eq, upper}
use vignemale.Python.{Result, Value, ok, raise, runtime_error}

-- `_request_ctx` of a request.
pub record Ctx : Type 0 where
  pub traceparent : Value
  pub auth : Value

-- The state that a call may change: the request context, and whatever the handlers touch.
pub record Session (W : Type 0) : Type 0 where
  pub ctx : Option Ctx
  pub world : W

abbrev pub Kwargs : Type 0
Kwargs = Dict Text Value

-- A Python function of keyword arguments.
abbrev pub Function : Type 0 → Type 0
Function W = Kwargs → Session W → Result Value × Session W

-- One entry of `_endpoints`; `module_name` is `wrapper.__module__`. The timeout and the limit are
-- only handed on.
pub record Endpoint (W : Type 0) : Type 0 where
  pub name : Text
  pub method : Text
  pub path : Text
  pub module_name : Text
  pub wrapper : Function W
  pub stream : Bool
  pub auth : Bool
  pub timeout : Option ℕ
  pub body_limit : Option ℕ
  pub expose : Bool

-- `_services`: name and module.
abbrev pub Services : Type 0
Services = List (Text × Text)

-- One entry of `_static_routes`.
pub record StaticRoute : Type 0 where
  pub path : Text
  pub directory : Text
  pub not_found : Option Text
  pub fallback : Bool

pub record App (W : Type 0) : Type 0 where
  pub endpoints : List (Endpoint W)
  pub services : Services
  pub auth_handler : Option (Text → Session W → Result Value × Session W)
  pub auth_required : List Text
  pub static_routes : List StaticRoute

-- `module == m or module.startswith(m + ".")`
unfoldable pub within : Text → Text → Bool
unfolding starts_with list_beq
within module_name m = (module_name == m) || starts_with module_name (m ++ (b'.' ∷ []))

-- The modules that declare the service `name`.
unfoldable pub modules_of : Text → Services → List Text
unfolding list_beq
modules_of name [] = []
modules_of name ((n, m) ∷ services) =
    let rest = modules_of name services in if n == name then m ∷ rest else rest

-- `in_service`
unfoldable pub in_service : List Text → Text → Bool
unfolding within
in_service modules module_name = any (within module_name) modules

module _ {W : Type 0} where
  -- `Service(name)`, in the module `module_name`
  unfoldable pub declare_service : Text → Text → App W → App W
  declare_service name module_name app = record app {
    services = app.services ++ ((name, module_name) ∷ []);
  }

  -- `@auth_handler`
  unfoldable pub declare_auth_handler :
      (Text → Session W → Result Value × Session W) → App W → Result (App W)
  declare_auth_handler f app = elim app.auth_handler [
    | none ↦ ok (record app { auth_handler = some f })
    | some _ ↦
        raise (runtime_error (codes "an auth_handler is already declared (only one per app)"))
  ]

  -- What `@api(…)` appends to the registry: the entry of the wrapper, with the method in capitals,
  -- and the name of an endpoint that requires authentication.
  unfoldable pub register : Endpoint W → App W → App W
  unfolding upper
  register e app = record app {
    endpoints = app.endpoints ++ (record e { method = upper e.method } ∷ []);
    auth_required = if e.auth then app.auth_required ++ (e.name ∷ []) else app.auth_required;
  }
