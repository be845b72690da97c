-- ===== src/Api/Serving.antt =====
-- What `vignemale/api.py` serves: `_endpoints_to_serve`, `serve`, `serve_gateway` and the check of
-- the port. The Rust core and the socket are parameters.
pub mod Guard
pub mod Static
pub mod Port
use vignemale.Api.Gateway.{GatewayRoute}
use vignemale.Api.Handler.{Pydantic, auth_adapter}
use vignemale.Api.Registry.{App, Endpoint, Session, StaticRoute, in_service, modules_of}
use vignemale.Prelude.{
  Bool, List, Option, [], false, if◌then◌else◌, is_empty, is_some, keep, map, nat_eq, none, not,
  opt_eq, pair_eq, some, suc, true, zero, ℕ, ◌&&◌, ◌*◌, ◌++◌, ◌+◌, ◌-◌, ◌==◌, ◌∷◌,
}
use vignemale.Prelude.Text.{
  Text, all_digits, codes, join, lower, occurs, print_nat, rpartition, text_eq,
}
use vignemale.Python.{
  Exception, Result, Value, negsuc, ok, pos, raise, runtime_error, system_exit, ℤ, ◌>>=◌, ◌>>◌,
}
use vignemale.Python.Env.{Env, get_env}

module _ {W : Type 0} where
  -- `_endpoints_to_serve()`; the flag says that the warning of an unknown service is printed.
  unfoldable pub endpoints_to_serve : Env → App W → List (Endpoint W) × Bool
  endpoints_to_serve env app = elim (get_env (codes "VIGNEMALE_SERVICE_NAME") env) [
    | none ↦ (app.endpoints, false)
    | some svc ↦
        let modules = modules_of svc app.services in
        if is_empty modules
        then (app.endpoints, true)
        else (keep (λ e. in_service modules e.module_name) app.endpoints, false)
  ]

  -- `protected`: the names of the served endpoints that require authentication
  unfoldable pub protected : List (Endpoint W) → List Text
  protected endpoints = map (λ e. e.name) (keep (λ e. e.auth) endpoints)

-- How a bind of the probe socket ends: `other_error` is another `OSError`, `bind_raises` an exception
-- that is none, such as the `OverflowError` of a port that is negative or above 65535.
pub data Bind : Type 0 where
  bound in_use other_error : Bind
  bind_raises : Exception → Bind

-- How the core's server ends.
pub data Served : Type 0 where
  returned interrupted : Served
  failed : Text → Served

abbrev pub digits_value : ℕ → Text → ℕ
digits_value n [] = n
digits_value n (c ∷ s) = digits_value (n * 10 + (c - 48)) s

-- `int(s)` of a text of digits
unfoldable pub parse_nat : Text → Option ℕ
unfolding all_digits
parse_nat s = if all_digits s then some (digits_value 0 s) else none

-- `int(s)` of an optional sign and digits.
unfoldable pub parse_int : Text → Option ℤ
unfolding parse_nat
parse_int [] = none
parse_int (c ∷ s) =
    if c == b'-'
    then negated (parse_nat s)
    else positive (parse_nat (if c == b'+' then s else c ∷ s))
  where
    negated : Option ℕ → Option ℤ
    negated none = none
    negated (some zero) = some (pos 0)
    negated (some (suc n)) = some (negsuc n)

    positive : Option ℕ → Option ℤ
    positive none = none
    positive (some n) = some (pos n)

abbrev next_port : Option ℕ → Text
next_port none = codes "<port>"
next_port (some port) = print_nat (port + 1)

-- `_port_in_use_error(addr)`
unfoldable pub port_in_use_error : Text → Exception
unfolding rpartition
port_in_use_error addr =
    let (host, port) = rpartition b':' addr in
    system_exit (
      codes "vignemale: "
      ++ addr
      ++ codes
          " is already in use — another process is listening on this port.\n  Find it with:       lsof -nP -iTCP:"
      ++ port
      ++ codes " -sTCP:LISTEN\n  Or pick another:    --addr "
      ++ host
      ++ codes ":"
      ++ next_port (parse_nat port))

-- `_check_port_free(addr, reuse_port)`
unfoldable pub check_port_free : (Text → ℤ → Bool → Bind) → Text → Bool → Result (Unit {0})
unfolding rpartition parse_int
check_port_free bind addr reuse_port =
    let (host, port_s) = rpartition b':' addr in
    elim (parse_int port_s) [
      | none ↦ ok tt
      | some port ↦ elim (bind host port reuse_port) [
        | bound ↦ ok tt
        | in_use ↦ raise (port_in_use_error addr)
        | other_error ↦ ok tt
        | bind_raises e ↦ raise e
      ]
    ]

-- The `except` clauses round the call of the core.
unfoldable pub after_serving : Text → Served → Result (Unit {0})
unfolding occurs lower
after_serving addr returned = ok tt
after_serving addr interrupted = ok tt
after_serving addr (failed message) =
    if occurs (codes "address already in use") (lower message)
    then raise (port_in_use_error addr)
    else raise (runtime_error message)

-- What the core is given.
pub record ServeRequest (W : Type 0) : Type 0 where
  pub endpoints : List (Endpoint W)
  pub addr : Text
  pub auth : Option (Text → Session W → Result Value × Session W)
  pub static_routes : List StaticRoute
  pub reuse_port : Bool

module _ {W : Type 0} (P : Pydantic) (bind : Text → ℤ → Bool → Bind)
    (core : ServeRequest W → Served) where
  unfoldable pub serve_request : Env → App W → Text → Bool → ServeRequest W
  unfolding endpoints_to_serve
  serve_request env app addr reuse_port = record {
    endpoints = (endpoints_to_serve env app).0;
    addr = addr;
    auth = elim app.auth_handler [ none ↦ none | some f ↦ some (auth_adapter P f) ];
    static_routes = app.static_routes;
    reuse_port = reuse_port;
  }

  -- `serve(addr, reuse_port)`
  unfoldable pub serve : Env → App W → Text → Bool → Result (Unit {0})
  serve env app addr reuse_port =
      let unguarded = protected (endpoints_to_serve env app).0 in
      if not (is_empty unguarded) && not (is_some app.auth_handler)
      then raise (
          system_exit (
            codes "vignemale: protected endpoint(s) without a declared @auth_handler: "
            ++ join (codes ", ") unguarded))
      else do
        check_port_free bind addr reuse_port
        after_serving addr (core (serve_request env app addr reuse_port))

-- What `serve_gateway` hands to the core.
pub record GatewayRequest (W : Type 0) : Type 0 where
  pub routes : List GatewayRoute
  pub addr : Text
  pub auth : Option (Text → Session W → Result Value × Session W)
  pub reuse_port : Bool

module _ {W : Type 0} (P : Pydantic) (bind : Text → ℤ → Bool → Bind)
    (core : GatewayRequest W → Served) where
  -- `serve_gateway(routes, addr, reuse_port)`
  unfoldable pub serve_gateway : App W → List GatewayRoute → Text → Bool → Result (Unit {0})
  unfolding check_port_free after_serving
  serve_gateway app routes addr reuse_port = do
    check_port_free bind addr reuse_port
    after_serving addr (
        core (record {
          routes = routes;
          addr = addr;
          auth = elim app.auth_handler [ none ↦ none | some f ↦ some (auth_adapter P f) ];
          reuse_port = reuse_port;
        }))
