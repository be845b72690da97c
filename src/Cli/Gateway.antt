-- ===== src/Cli/Gateway.antt =====
-- `vignemale_cli/gateway.py`: the routing table, from the statically extracted endpoints.
pub mod Prefix
pub mod Table
use vignemale.Api.Gateway.{GatewayRoute, service_key}
use vignemale.Cli.Collect.Extract.{EndpointInfo}
use vignemale.Cli.Collect.Meta.{auth}
use vignemale.Cli.Collect.Paths.{Extraction, ServiceInfo}
use vignemale.Prelude.{
  Bool, List, Option, [], false, if◌then◌else◌, is_empty, nat_eq, none, opt_eq, or_else, pair_eq,
  some, ◌++◌, ◌==◌, ◌||◌, ◌∷◌,
}
use vignemale.Prelude.Dict.{Dict, insert, lookup}
use vignemale.Prelude.Text.{Text, codes, join, split, text_eq}
use vignemale.Python.{Result, ok, raise, system_exit, ◌>>=◌, ◌>>◌}
use vignemale.Python.Env.{Env, get_env}

-- seg.startswith((":", "*"))
unfoldable pub is_dynamic : Text → Bool
is_dynamic [] = false
is_dynamic (c ∷ _) = (c == b':') || (c == b'*')

-- The loop of `_literal_prefix`.
unfoldable pub literal_segments : List Text → List Text
unfolding is_dynamic
literal_segments [] = []
literal_segments (seg ∷ segs) =
    let rest = literal_segments segs in
    if is_dynamic seg then [] else if is_empty seg then rest else seg ∷ rest

unfoldable pub literal_prefix : Option Text → Text
literal_prefix path = b'/' ∷ join (codes "/") (literal_segments (split b'/' (or_else path [])))

-- One turn of the loop over a service's endpoints.
unfoldable pub add_route :
    Text → Text → Dict Text GatewayRoute → EndpointInfo → Dict Text GatewayRoute
unfolding literal_prefix insert
add_route name upstream routes e =
    let prefix = literal_prefix e.path in
    elim (lookup prefix routes) [
      | none ↦
          insert prefix
            (record {
              prefix = prefix;
              service = name;
              upstream = upstream;
              requires_auth = e.auth;
            })
            routes
      | some r ↦ insert prefix (record r { requires_auth = r.requires_auth || e.auth }) routes
    ]

unfoldable pub add_routes :
    Text → Text → Dict Text GatewayRoute → List EndpointInfo → Dict Text GatewayRoute
unfolding add_route
add_routes name upstream routes [] = routes
add_routes name upstream routes (e ∷ endpoints) =
    add_routes name upstream (add_route name upstream routes e) endpoints

-- The loop over the services; a service whose URL is not set ends the program.
unfoldable pub routes_of :
    Env → Dict Text GatewayRoute → List ServiceInfo → Result (Dict Text GatewayRoute)
unfolding add_routes
routes_of env routes [] = ok routes
routes_of env routes (s ∷ services) = elim (get_env (service_key s.name) env) [
  | none ↦ raise (
      system_exit (
        codes "gateway: URL of service '"
        ++ s.name
        ++ codes "' missing (set "
        ++ service_key s.name
        ++ codes ")"))
  | some upstream ↦ routes_of env (add_routes s.name upstream routes s.endpoints) services
]

abbrev entries : Dict Text GatewayRoute → List GatewayRoute
entries [] = []
entries ((_, r) ∷ d) = r ∷ entries d

unfoldable pub build_routes : Env → Extraction → Result (List GatewayRoute)
unfolding routes_of
build_routes env x = do routes ← routes_of env [] x.services; ok (entries routes)
