-- ===== src/Cli/Collect/Meta.antt =====
-- `build_meta` of `vignemale_cli/collect.py`: the extraction as the message `meta.Data`.
pub mod Schemas
pub mod Segments
use vignemale.Call.Http.{response}
use vignemale.Cli.Collect.Extract.{EndpointInfo, FieldInfo}
use vignemale.Cli.Collect.Paths.{Extraction, ServiceInfo}
use vignemale.Prelude.{
  Bool, List, Option, [], if◌then◌else◌, is_empty, list_beq, map, nat_eq, none, not, opt_eq,
  or_else, pair_eq, some, ℕ, ◌+◌, ◌==◌, ◌∷◌,
}
use vignemale.Prelude.Dict.{Dict, lookup}
use vignemale.Prelude.Text.{Text, codes, is_space, split, strip_both, text_eq}

pub data Builtin : Type 0 where
  string int64 float64 boolean bytes any_type : Builtin

unfoldable pub builtin : Option Text → Builtin
unfolding strip_both list_beq
builtin none = any_type
builtin (some t) =
    let name = strip_both is_space t in
    if name == codes "str"
    then string
    else if name == codes "int"
    then int64
    else if name == codes "float"
    then float64
    else if name == codes "bool"
    then boolean
    else if name == codes "bytes"
    then bytes
    else any_type

pub data Segment : Type 0 where
  literal param wildcard : Text → Segment

-- One turn of the loop of `_add_path`.
unfoldable pub segment : Text → Option Segment
segment [] = none
segment (c ∷ s) =
    if c == b':'
    then some (param s)
    else if c == b'*'
    then some (wildcard s)
    else some (literal (c ∷ s))

unfoldable pub segments : List Text → List Segment
unfolding segment
segments [] = []
segments (seg ∷ segs) = elim (segment seg) [ none ↦ segments segs | some s ↦ s ∷ segments segs ]

-- `_add_path`
unfoldable pub path_segments : Option Text → List Segment
path_segments path = segments (split b'/' (or_else path []))

pub data Access : Type 0 where
  private auth public : Access

pub record Field : Type 0 where
  pub name : Text
  pub typ : Builtin
  pub optional : Bool

pub record Decl : Type 0 where
  pub id : ℕ
  pub name : Text
  pub fields : List Field

pub record Rpc : Type 0 where
  pub name : Text
  pub service_name : Text
  pub access_type : Access
  pub http_methods : List Text
  pub path : List Segment
  pub request_schema : Option ℕ
  pub response_schema : Option ℕ
  pub streaming_response : Bool

pub record Svc : Type 0 where
  pub name : Text
  pub databases : List Text
  pub buckets : List Text
  pub rpcs : List Rpc

-- One package, of the app's name, holds the secrets.
pub record Data : Type 0 where
  pub module_path : Text
  pub decls : List Decl
  pub sql_databases : List Text
  pub buckets : List Text
  pub pkgs : List (Text × List Text)
  pub auth_handler : Option (Text × Text)
  pub svcs : List Svc

unfoldable pub decl_fields : Dict Text FieldInfo → List Field
unfolding builtin
decl_fields [] = []
decl_fields ((n, f) ∷ rest) =
    record { name = n; typ = builtin f.annotation; optional = not f.required } ∷ decl_fields rest

-- The loop over `enumerate(models.items(), start=1)`.
unfoldable pub decls_from : ℕ → Dict Text (Dict Text FieldInfo) → List Decl
unfolding decl_fields
decls_from i [] = []
decls_from i ((n, fields) ∷ rest) =
    record { id = i; name = n; fields = decl_fields fields } ∷ decls_from (i + 1) rest

unfoldable pub decl_ids_from : ℕ → Dict Text (Dict Text FieldInfo) → Dict Text ℕ
decl_ids_from i [] = []
decl_ids_from i ((n, fields) ∷ rest) = (n, i) ∷ decl_ids_from (i + 1) rest

unfoldable pub access_type : EndpointInfo → Access
access_type e = if not e.expose then private else if e.auth then auth else public

-- `if ep[...] in decl_ids`
abbrev schema : Dict Text ℕ → Option Text → Option ℕ
schema ids none = none
schema ids (some t) = lookup t ids

abbrev methods : Option Text → List Text
methods none = []
methods (some []) = []
methods (some (c ∷ s)) = (c ∷ s) ∷ []

unfoldable pub rpc_of : Dict Text ℕ → Text → EndpointInfo → Rpc
unfolding access_type
rpc_of ids service e = record {
  name = e.name;
  service_name = service;
  access_type = access_type e;
  http_methods = methods e.method;
  path = path_segments e.path;
  request_schema = schema ids e.request;
  response_schema = schema ids e.response;
  streaming_response = e.stream;
}

unfoldable pub svc_of : Dict Text ℕ → ServiceInfo → Svc
unfolding rpc_of
svc_of ids s = record {
  name = s.name;
  databases = s.databases;
  buckets = s.buckets;
  rpcs = map (rpc_of ids s.name) s.endpoints;
}

unfoldable pub build_meta : Extraction → Text → Data
unfolding decls_from decl_ids_from svc_of
build_meta x app_name = record {
  module_path = app_name;
  decls = decls_from 1 x.models;
  sql_databases = x.databases;
  buckets = x.buckets;
  pkgs = if is_empty x.secrets then [] else (app_name, x.secrets) ∷ [];
  auth_handler = x.auth_handler;
  svcs = map (svc_of (decl_ids_from 1 x.models)) x.services;
}
