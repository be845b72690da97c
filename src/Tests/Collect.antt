-- ===== src/Tests/Collect.antt =====
-- `vignemale_cli/collect.py` on a small app.
use vignemale.Cli.Collect.Extract.{EndpointInfo, extract_members, extract_module, on_call}
use vignemale.Cli.Collect.Meta.{Rpc, Svc, decl_ids_from, path_segments, rpc_of, svc_of}
use vignemale.Cli.Collect.Meta.Segments.{path_segments-written, written}
use vignemale.Cli.Collect.Paths.{
  DirEntry, Extraction, ServiceInfo, add_module, extract_dir, extract_modules, is_module_file,
  is_service_dir, module_names,
}
use vignemale.Cli.Collect.Syntax.{
  Argument, Expr, Members, attribute, calls, done, first_arg, lit, member, name_of, positional,
}
use vignemale.Cli.Gateway.Prefix.{path_of}
use vignemale.Prelude.{
  List, [], extend_new, false, list_beq, map, nat_eq, none, opt_eq, pair_eq, refl, some, true, ◌++◌,
  ◌∷◌, ◌≡◌,
}
use vignemale.Prelude.Text.{Text, codes, ends_with, starts_with, text_eq}
use vignemale.Python.{str}

abbrev quoted : Text → Expr
quoted s = record { source = b'\'' ∷ s ++ (b'\'' ∷ []); literal = some (str s) }

abbrev name_arg : Text → List Argument
name_arg s = positional (quoted s) ∷ []

-- Two modules that declare the same database.
abbrev shop : Members
shop =
    member (codes "svc")
      (attribute (some (record { function = codes "Service"; arguments = name_arg (codes "s") })))
      (member (codes "db")
        (attribute
          (some (record { function = codes "SQLDatabase"; arguments = name_arg (codes "main") })))
        done)

abbrev load : Text → Members
load m = shop

abbrev entries : List DirEntry
entries =
    record { name = codes "a.py"; is_dir = false; has_init = false }
    ∷ record { name = codes "_b.py"; is_dir = false; has_init = false }
    ∷ record { name = codes "c"; is_dir = true; has_init = true }
    ∷ []

one_database : (extract_dir load entries).databases ≡ codes "main" ∷ []
unfolding extract_dir extract_modules add_module module_names is_module_file is_service_dir
    extract_module extract_members on_call first_arg lit name_of calls ends_with starts_with
    list_beq extend_new
one_database = refl

abbrev order_endpoint : EndpointInfo
order_endpoint = record {
  name = codes "order";
  method = some (codes "POST");
  path = some (codes "/orders");
  stream = false;
  auth = true;
  expose = true;
  request = some (codes "Order");
  response = some (codes "Receipt");
  params = [];
}

abbrev order_service : ServiceInfo
order_service = record {
  name = codes "s";
  databases = [];
  buckets = [];
  endpoints = order_endpoint ∷ [];
}

abbrev orders : Extraction
orders = record {
  services = order_service ∷ [];
  models = (codes "Item", []) ∷ (codes "Order", []) ∷ [];
  model_modules = [];
  databases = [];
  buckets = [];
  secrets = [];
  auth_handler = none;
}

abbrev order_svc : Svc
order_svc = svc_of (decl_ids_from 1 orders.models) order_service

abbrev order_rpc : Rpc
order_rpc = rpc_of (decl_ids_from 1 orders.models) (codes "s") order_endpoint

order_reference :
    (rpc_of (decl_ids_from 1 orders.models) (codes "s") order_endpoint).request_schema ≡ some 2
unfolding rpc_of decl_ids_from list_beq
order_reference = refl

path_segments-written_example :
    map written (path_segments (some (path_of (codes "orders" ∷ codes ":id" ∷ []))))
    ≡ codes "orders" ∷ codes ":id" ∷ []
path_segments-written_example =
    path_segments-written (codes "orders") (codes ":id" ∷ []) ((refl, refl), ((refl, refl), tt))
