-- ===== src/Tests/Gateway.antt =====
-- The routing tables and the prefixes.
use vignemale.Api.Gateway.{
  GatewayRoute, RouteKey, add_endpoint, before, ends_prefix, record_route, route_key, route_table,
  service_of, static_prefix,
}
use vignemale.Api.Gateway.Table.{guards, makes, route_table_exact}
use vignemale.Api.Registry.{Endpoint, Services, within}
use vignemale.Cli.Collect.Extract.{EndpointInfo}
use vignemale.Cli.Collect.Paths.{Extraction, ServiceInfo}
use vignemale.Cli.Gateway.{is_dynamic, literal_prefix, routes_of}
use vignemale.Cli.Gateway.Prefix.{path_of, prefixes_agree, wildcard_prefixes}
use vignemale.Cli.Gateway.Table.{
  HasUrl, endpoints_of, guard_of, guarded_prefix, has_prefix, routes_of_exact,
}
use vignemale.Prelude.{
  Bool, List, [], any, false, if◌then◌else◌, list_beq, nat_eq, none, opt_eq, pair_beq, pair_eq,
  refl, some, true, ℕ, ◌++◌, ◌∷◌, ◌≡◌,
}
use vignemale.Prelude.Dict.{Dict, insert, lookup}
use vignemale.Prelude.Text.{
  Text, codes, drop_while, join, replace_char, split, starts_with, strip_both, strip_right, text_eq,
  to_upper, upper,
}
use vignemale.Python.{null, ok}
use vignemale.Python.Env.{Env, env_suffix, get_env}

abbrev endpoint : Text → Text → Bool → Bool → Endpoint ℕ
endpoint path module_name auth expose = record {
  name = codes "e";
  method = codes "GET";
  path = path;
  module_name = module_name;
  wrapper = λ kwargs s. (ok null, s);
  stream = false;
  auth = auth;
  timeout = none;
  body_limit = none;
  expose = expose;
}

abbrev env : Env
env = (codes "VIGNEMALE_SERVICE_MY_SHOP", codes "http://shop") ∷ []

abbrev services : Services
services = (codes "my-shop", codes "shop") ∷ []

abbrev endpoints : List (Endpoint ℕ)
endpoints =
    endpoint (codes "/items/:id") (codes "shop.items") false true
    ∷ endpoint (codes "/items/{id}/x") (codes "shop") true true
    ∷ endpoint (codes "/admin") (codes "shop") true false
    ∷ endpoint (codes "/items") (codes "shopping") false true
    ∷ []

abbrev items_key : RouteKey
items_key = (codes "/items", (codes "my-shop", codes "http://shop"))

table_runs : route_table env services [] endpoints ≡ (items_key, true) ∷ []
unfolding route_table add_endpoint record_route route_key service_of within static_prefix before
    ends_prefix strip_both strip_right drop_while split join get_env env_suffix upper to_upper
    replace_char starts_with list_beq pair_beq insert
table_runs = refl

route_table_exact_example : lookup items_key (route_table env services [] endpoints) ≡ (
    if any (makes env services items_key) endpoints
    then some (any (guards env services items_key) endpoints)
    else none)
route_table_exact_example = route_table_exact env services items_key endpoints

items_routed : lookup items_key (route_table env services [] endpoints) ≡ some true
unfolding list_beq pair_beq
items_routed = rw table_runs refl

prefixes_agree_example :
    (static_prefix (path_of (codes "items" ∷ codes ":id" ∷ []))
      ≡ path_of (before (λ v. starts_with v (codes ":")) (codes "items" ∷ codes ":id" ∷ [])))
    × (literal_prefix (some (path_of (codes "items" ∷ codes ":id" ∷ [])))
        ≡ static_prefix (path_of (codes "items" ∷ codes ":id" ∷ [])))
unfolding starts_with
prefixes_agree_example =
    prefixes_agree (codes "items") (codes ":id" ∷ []) ((refl, refl), ((refl, refl), tt))
      ((refl, refl), ((refl, refl), tt))

wildcard_prefixes_example :
    (literal_prefix (some (codes "/files/*rest")) ≡ codes "/files")
    × (static_prefix (codes "/files/*rest") ≡ codes "/files/*rest")
unfolding join ends_prefix is_dynamic
wildcard_prefixes_example =
    wildcard_prefixes (codes "files") (codes "rest") (refl, refl) refl refl refl

abbrev extracted : Text → Text → Bool → EndpointInfo
extracted name path auth = record {
  name = name;
  method = some (codes "GET");
  path = some path;
  stream = false;
  auth = auth;
  expose = true;
  request = none;
  response = none;
  params = [];
}

abbrev info : Text → List EndpointInfo → ServiceInfo
info name endpoints = record { name = name; endpoints = endpoints; databases = []; buckets = [] }

abbrev app_services : List ServiceInfo
app_services =
    info (codes "my-shop") (
      extracted (codes "get") (codes "/items/:id") false
      ∷ extracted (codes "list") (codes "/items") true
      ∷ [])
    ∷ []

shop_url : HasUrl env (info (codes "my-shop") [])
unfolding get_env env_suffix upper to_upper replace_char list_beq
shop_url = (codes "http://shop", refl)

routes_of_exact_example :
    (table : Dict Text GatewayRoute) × (routes_of env [] app_services ≡ ok table)
    × ((p : Text)
        → guard_of p table ≡ (
            if any (has_prefix p) (endpoints_of app_services)
            then some (any (guarded_prefix p) (endpoints_of app_services))
            else none))
routes_of_exact_example = routes_of_exact env app_services (shop_url, tt)

abbrev lonely : Extraction
lonely = record {
  services = app_services ++ (info (codes "mail") [] ∷ []);
  models = [];
  model_modules = [];
  databases = [];
  buckets = [];
  secrets = [];
  auth_handler = none;
}
