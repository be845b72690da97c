-- ===== src/Cli/Gateway/Table.antt =====
-- What the routing table of `vignemale gateway` holds.
use vignemale.Api.Gateway.{GatewayRoute, before, service_key}
use vignemale.Cli.Collect.Extract.{EndpointInfo}
use vignemale.Cli.Collect.Paths.{Extraction, ServiceInfo}
use vignemale.Cli.Gateway.{add_route, add_routes, build_routes, literal_prefix, routes_of}
use vignemale.Prelude.{
  All, Bool, List, Option, Option-cases, [], any, any-append, ap, arith, false, if◌then◌else◌, inl,
  inr, is_some, nat_eq, none, opt_eq, or_else, pair_eq, refl, some, true, ◌&&◌, ◌++◌, ◌==◌, ◌||◌,
  ◌∷◌, ◌≡◌,
}
use vignemale.Prelude.Dict.{Dict, insert, lookup, lookup-insert}
use vignemale.Prelude.Text.{Text, codes, split, text_eq}
use vignemale.Python.{ok, raise, system_exit}
use vignemale.Python.Env.{Env, get_env}

-- Whether the route of a prefix requires authentication, if there is one.
abbrev pub guard_of : Text → Dict Text GatewayRoute → Option Bool
guard_of p routes = elim (lookup p routes) [ none ↦ none | some r ↦ some r.requires_auth ]

abbrev pub has_prefix : Text → EndpointInfo → Bool
has_prefix p e = literal_prefix e.path == p

abbrev pub guarded_prefix : Text → EndpointInfo → Bool
guarded_prefix p e = has_prefix p e && e.auth

-- All endpoints, service by service.
abbrev pub endpoints_of : List ServiceInfo → List EndpointInfo
endpoints_of [] = []
endpoints_of (s ∷ services) = s.endpoints ++ endpoints_of services

guard_of-insert :
    (p q : Text) (r : GatewayRoute) (routes : Dict Text GatewayRoute)
    → guard_of p (insert q r routes) ≡ (if q == p then some r.requires_auth else guard_of p routes)
guard_of-insert p q r routes = ground (arith, lookup-insert p q r routes, text_eq.beq_iff q p)

guard_of-add_route :
    (p name upstream : Text) (routes : Dict Text GatewayRoute) (e : EndpointInfo)
    → guard_of p (add_route name upstream routes e) ≡ (
        if has_prefix p e
        then some (or_else (guard_of p routes) false || e.auth)
        else guard_of p routes)
unfolding add_route
guard_of-add_route p name upstream routes e =
    elim (Option-cases (lookup (literal_prefix e.path) routes)) [
      | inl absent ↦
          rw (absent, add_route)
            (ground (
              arith,
              guard_of-insert p (literal_prefix e.path)
                  (record {
                    prefix = literal_prefix e.path;
                    service = name;
                    upstream = upstream;
                    requires_auth = e.auth;
                  })
                  routes,
              text_eq.beq_iff (literal_prefix e.path) p,
              same_route,
            ))
      | inr (r, found) ↦
          rw (found, add_route)
            (ground (
              arith,
              guard_of-insert p (literal_prefix e.path)
                  (record r { requires_auth = r.requires_auth || e.auth }) routes,
              text_eq.beq_iff (literal_prefix e.path) p,
              same_route,
            ))
    ]
  where
    same_route : literal_prefix e.path ≡ p → lookup (literal_prefix e.path) routes ≡ lookup p routes
    same_route h = ap (λ q. lookup q routes) h

guard_of-add_routes :
    (p name upstream : Text) (routes : Dict Text GatewayRoute) (endpoints : List EndpointInfo)
    → guard_of p (add_routes name upstream routes endpoints) ≡ (
        if any (has_prefix p) endpoints || is_some (guard_of p routes)
        then some (or_else (guard_of p routes) false || any (guarded_prefix p) endpoints)
        else none)
unfolding add_routes
guard_of-add_routes p name upstream routes [] = ground arith
guard_of-add_routes p name upstream routes (e ∷ endpoints) = ground (
  arith,
  guard_of-add_routes p name upstream (add_route name upstream routes e) endpoints,
  guard_of-add_route p name upstream routes e,
)

any-guarded_prefix :
    (p : Text) (endpoints : List EndpointInfo)
    → any (guarded_prefix p) endpoints ≡ true
    → any (has_prefix p) endpoints ≡ true
any-guarded_prefix p [] h = h
any-guarded_prefix p (e ∷ endpoints) h = ground (arith, any-guarded_prefix p endpoints)

-- The URL of the service is set.
abbrev pub HasUrl : Env → ServiceInfo → Type 0
HasUrl env s = (url : Text) × (get_env (service_key s.name) env ≡ some url)

-- The table has the routes and guards of these endpoints, besides those that it had.
record Extends (routes table : Dict Text GatewayRoute) (endpoints : List EndpointInfo)
    : Type 0 where
  guards :
      (p : Text)
      → guard_of p table ≡ (
          if any (has_prefix p) endpoints || is_some (guard_of p routes)
          then some (or_else (guard_of p routes) false || any (guarded_prefix p) endpoints)
          else none)

routes_of-Extends :
    (env : Env) (routes : Dict Text GatewayRoute) (services : List ServiceInfo)
    → All (HasUrl env) services
    → (table : Dict Text GatewayRoute) × (routes_of env routes services ≡ ok table)
      × Extends routes table (endpoints_of services)
unfolding routes_of
routes_of-Extends env routes [] h = (routes, refl, record { guards = λ p. ground arith })
routes_of-Extends env routes (s ∷ services) h =
    let (url, found) = h.0 in
    let (table, run, ext) =
      routes_of-Extends env (add_routes s.name url routes s.endpoints) services h.1 in
    (
      table,
      rw (found, routes_of) run,
      record {
        guards = λ p. ground (
          arith,
          ext.guards p,
          guard_of-add_routes p s.name url routes s.endpoints,
          any-guarded_prefix p s.endpoints,
          any-append (has_prefix p) s.endpoints (endpoints_of services),
          any-append (guarded_prefix p) s.endpoints (endpoints_of services),
        );
      },
    )

-- If the URL of every service is set, the table is built. It has a route of a prefix exactly when
-- some endpoint of a service has that literal prefix, private endpoints included, and the route
-- requires authentication exactly when one of these endpoints does.
pub routes_of_exact :
    (env : Env) (services : List ServiceInfo)
    → All (HasUrl env) services
    → (table : Dict Text GatewayRoute) × (routes_of env [] services ≡ ok table)
      × ((p : Text)
          → guard_of p table ≡ (
              if any (has_prefix p) (endpoints_of services)
              then some (any (guarded_prefix p) (endpoints_of services))
              else none))
routes_of_exact env services h =
    let (table, run, ext) = routes_of-Extends env [] services h in
    (table, run, λ p. ground (arith, ext.guards p))

routes_of_missing :
    (env : Env) (s : ServiceInfo) (after before : List ServiceInfo)
    (routes : Dict Text GatewayRoute)
    → All (HasUrl env) before
    → get_env (service_key s.name) env ≡ none
    → routes_of env routes (before ++ s ∷ after)
      ≡ raise (
          system_exit (
            codes "gateway: URL of service '"
            ++ s.name
            ++ codes "' missing (set "
            ++ service_key s.name
            ++ codes ")"))
unfolding routes_of
routes_of_missing env s after [] routes h absent = rw (absent, routes_of)
routes_of_missing env s after (b ∷ before) routes h absent =
    rw (h.0.1, routes_of)
      (routes_of_missing env s after before (add_routes b.name h.0.0 routes b.endpoints) h.1 absent)

-- If the URL of one service is not set and those of the services before it are, the program ends
-- with a message that names that service and its variable.
pub build_routes_missing :
    (env : Env) (x : Extraction) (before after : List ServiceInfo) (s : ServiceInfo)
    → x.services ≡ before ++ s ∷ after
    → All (HasUrl env) before
    → get_env (service_key s.name) env ≡ none
    → build_routes env x
      ≡ raise (
          system_exit (
            codes "gateway: URL of service '"
            ++ s.name
            ++ codes "' missing (set "
            ++ service_key s.name
            ++ codes ")"))
unfolding build_routes
build_routes_missing env x before after s split h absent =
    rw (split, routes_of_missing env s after before [] h absent)
