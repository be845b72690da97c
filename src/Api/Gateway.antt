-- ===== src/Api/Gateway.antt =====
-- `_gateway_routes` of `vignemale/api.py`: the gateway's routing table, from the loaded endpoints.
pub mod Table
use vignemale.Api.Registry.{App, Endpoint, Services, within}
use vignemale.Prelude.{
  Bool, List, Option, [], false, if◌then◌else◌, map, nat_eq, none, not, opt_eq, or_else, pair_eq,
  some, true, ℕ, ◌++◌, ◌==◌, ◌||◌, ◌∷◌,
}
use vignemale.Prelude.Dict.{Dict, insert, lookup}
use vignemale.Prelude.Text.{Text, codes, join, split, strip_both, text_eq}
use vignemale.Python.Env.{Env, env_suffix, get_env}

-- (prefix, (service, url))
abbrev pub RouteKey : Type 0
RouteKey = Text × (Text × Text)

pub record GatewayRoute : Type 0 where
  pub prefix : Text
  pub service : Text
  pub upstream : Text
  pub requires_auth : Bool

-- `service_of(module)`: the first service whose module the endpoint's module is or lies below
unfoldable pub service_of : Services → Text → Option Text
unfolding within
service_of [] module_name = none
service_of ((n, m) ∷ services) module_name =
    if within module_name m then some n else service_of services module_name

-- `not seg or seg[0] in (":", "{")`
unfoldable pub ends_prefix : Text → Bool
ends_prefix [] = true
ends_prefix (c ∷ _) = (c == b':') || (c == b'{')

-- The segments before the first that satisfies a test: a loop with `break`.
unfoldable pub before : (Text → Bool) → List Text → List Text
before p [] = []
before p (seg ∷ segs) = if p seg then [] else seg ∷ before p segs

abbrev pub is_slash : ℕ → Bool
is_slash c = c == b'/'

unfoldable pub static_prefix : Text → Text
static_prefix path =
    b'/' ∷ join (codes "/") (before ends_prefix (split b'/' (strip_both is_slash path)))

abbrev pub service_key : Text → Text
service_key name = codes "VIGNEMALE_SERVICE_" ++ env_suffix name

-- `routes[key] = routes.get(key, False) or bool(auth)`, if there is a key
unfoldable pub record_route : Option RouteKey → Bool → Dict RouteKey Bool → Dict RouteKey Bool
record_route none auth routes = routes
record_route (some key) auth routes = insert key (or_else (lookup key routes) false || auth) routes

module _ {W : Type 0} (env : Env) (services : Services) where
  -- The key of the route that the loop makes of an endpoint, if it does not `continue`.
  unfoldable pub route_key : Endpoint W → Option RouteKey
  route_key e = if not e.expose then none else elim (service_of services e.module_name) [
    | none ↦ none
    | some svc ↦ elim (get_env (service_key svc) env) [
      | none ↦ none
      | some url ↦ some (static_prefix e.path, (svc, url))
    ]
  ]

  unfoldable pub add_endpoint : Dict RouteKey Bool → Endpoint W → Dict RouteKey Bool
  unfolding record_route
  add_endpoint routes e = record_route (route_key e) e.auth routes

  unfoldable pub route_table : Dict RouteKey Bool → List (Endpoint W) → Dict RouteKey Bool
  route_table routes [] = routes
  route_table routes (e ∷ endpoints) = route_table (add_endpoint routes e) endpoints

abbrev pub to_route : RouteKey × Bool → GatewayRoute
to_route ((prefix, (service, upstream)), requires_auth) = record {
  prefix = prefix;
  service = service;
  upstream = upstream;
  requires_auth = requires_auth;
}

unfoldable pub gateway_routes : {W : Type 0} → Env → App W → List GatewayRoute
unfolding route_table
gateway_routes env app = map to_route (route_table env app.services [] app.endpoints)
