-- ===== src/Tests/Api.antt =====
-- `vignemale/api.py`: errors, the wrapper and what is served.
use vignemale.Api.Errors.{code_of_status, error_of, fail}
use vignemale.Api.Handler.{
  Pydantic, Signature, accepts, body_required, get_or_none, prepare, to_jsonable, validate_body,
  wrapper,
}
use vignemale.Api.Handler.Context.{
  IsInvalidArgument, Passes, ctx-wrapper, prepare-Passes, wrapper_rejects,
}
use vignemale.Api.Handler.Json.{dumps_json, is_json, to_jsonable-normal}
use vignemale.Api.Registry.{
  App, Endpoint, Function, Kwargs, Session, in_service, modules_of, within,
}
use vignemale.Api.Serving.{
  after_serving, bind_raises, bound, check_port_free, endpoints_to_serve, parse_int, parse_nat,
  protected, returned, serve,
}
use vignemale.Api.Serving.Guard.{BelongsTo, endpoints_to_serve-BelongsTo, serve_guarded}
use vignemale.Api.Serving.Static.{
  index_page, keep_segment, normal_segments, normpath, resolve, static_files,
}
use vignemale.Prelude.{
  Bool, Elem, Option, [], false, inl, inr, is_some, list_beq, nat_eq, none, opt_eq, pair_eq, refl,
  some, true, ℕ, ◌+◌, ◌↔◌, ◌∷◌, ◌≡◌, ◌⊎◌,
}
use vignemale.Prelude.Dict.{insert, restrict}
use vignemale.Prelude.Text.{
  Text, all_digits, codes, drop_while, ends_with, join, rpartition, split, starts_with, strip_right,
  text_eq,
}
use vignemale.Python.{
  Exception, Result, Value, api_error, cons, dict, end, field, list, model, nil, null, ok, other,
  raise, str, tuple,
}
use vignemale.Python.Env.{Env, get_env}

not_found_text : code_of_status 404 ≡ codes "not_found"
unfolding code_of_status
not_found_text = refl

-- A stand-in for Pydantic: the class `Person` takes texts, and an instance is dumped as its fields.
abbrev toy : Pydantic
toy = record { validate = toy_validate; dump = λ c fields. dict fields }
  where
    toy_validate : Text → Value → Value ⊎ Value
    toy_validate c (str s) = inr (model c (field (codes "name") (str s) end))
    toy_validate c v = inl (list (cons v nil))

abbrev greet : Signature
greet = record {
  params = record { name = codes "body"; has_default = false } ∷ [];
  var_kwargs = false;
  body_model = some (codes "Person");
}

abbrev echo : Function ℕ
echo kwargs s =
    (ok (get_or_none (codes "body") kwargs), record s { ctx = none; world = s.world + 1 })

abbrev idle : Session ℕ
idle = record { ctx = none; world = 0 }

abbrev request : Kwargs
request = (codes "body", str (codes "Ada")) ∷ (codes "query", dict end) ∷ []

abbrev typed_request : Kwargs
typed_request =
    (codes "body", model (codes "Person") (field (codes "name") (str (codes "Ada")) end)) ∷ []

prepare_runs : prepare toy greet request ≡ ok typed_request
unfolding prepare validate_body restrict accepts body_required list_beq insert
prepare_runs = refl

prepare_refuses :
    prepare toy greet []
    ≡ raise (
        api_error
          (error_of (codes "invalid_argument") 400 (str (codes "request body required")) null))
unfolding prepare restrict body_required list_beq fail
prepare_refuses = refl

ctx-wrapper_example : (wrapper toy greet echo request idle).1.ctx ≡ none
ctx-wrapper_example = ctx-wrapper toy greet echo request idle

prepare-Passes_example : Passes toy greet request typed_request
prepare-Passes_example = prepare-Passes toy greet request typed_request prepare_runs

abbrev missing_body : Exception
missing_body =
    api_error (error_of (codes "invalid_argument") 400 (str (codes "request body required")) null)

wrapper_rejects_example :
    (wrapper toy greet echo [] idle ≡ (raise missing_body, idle)) × IsInvalidArgument missing_body
wrapper_rejects_example = wrapper_rejects toy greet echo [] idle missing_body prepare_refuses

-- A stand-in that dumps an instance as its fields.
abbrev as_fields : Pydantic
as_fields = record { validate = λ c v. inr v; dump = λ c fields. dict fields }

abbrev people : Value
people = tuple (cons (model (codes "Person") (field (codes "tags") (tuple nil) end)) nil)

to_jsonable-normal_example :
    ((is_json (to_jsonable as_fields people) ≡ true) ↔ (dumps_json as_fields people ≡ true))
    × (is_json people ≡ true → to_jsonable as_fields people ≡ people)
to_jsonable-normal_example = to_jsonable-normal as_fields people

-- A tuple in a field of an instance stays.
tuple_stays :
    to_jsonable as_fields people ≡ list (cons (dict (field (codes "tags") (tuple nil) end)) nil)
unfolding to_jsonable
tuple_stays = refl

abbrev cart : Bool → Endpoint ℕ
cart auth = record {
  name = codes "cart";
  method = codes "GET";
  path = codes "/cart";
  module_name = codes "shop.cart";
  wrapper = λ kwargs s. (ok null, s);
  stream = false;
  auth = auth;
  timeout = none;
  body_limit = none;
  expose = true;
}

abbrev shop_app : App ℕ
shop_app = record {
  endpoints = cart true ∷ [];
  services = (codes "my-shop", codes "shop") ∷ [];
  auth_handler = none;
  auth_required = codes "cart" ∷ [];
  static_routes = [];
}

abbrev open_app : App ℕ
open_app = record shop_app { auth_handler = some (λ token s. (ok null, s)) }

abbrev shop_env : Env
shop_env = (codes "VIGNEMALE_SERVICE_NAME", codes "my-shop") ∷ []

cart_served :
    (auth : Option (Text → Session ℕ → Result Value × Session ℕ))
    → Elem (cart true) (endpoints_to_serve shop_env (record shop_app { auth_handler = auth })).0
unfolding endpoints_to_serve modules_of in_service within starts_with list_beq get_env
cart_served auth = inl refl

endpoints_to_serve-BelongsTo_example :
    ((endpoints_to_serve shop_env shop_app).1 ≡ false)
    × ((e : Endpoint ℕ)
        → Elem e (endpoints_to_serve shop_env shop_app).0
          ↔ (Elem e shop_app.endpoints × BelongsTo (codes "my-shop") shop_app e))
unfolding get_env list_beq
endpoints_to_serve-BelongsTo_example =
    endpoints_to_serve-BelongsTo shop_env shop_app (codes "my-shop") (codes "shop") refl (inl refl)

serve_runs :
    serve toy
      (λ host port reuse. bound)
      (λ request. returned)
      shop_env
      open_app
      (codes "127.0.0.1:80")
      false
    ≡ ok tt
unfolding serve check_port_free after_serving rpartition parse_int parse_nat all_digits protected
    endpoints_to_serve get_env list_beq modules_of in_service
serve_runs = refl

serve_guarded_example : is_some open_app.auth_handler ≡ true
serve_guarded_example =
    serve_guarded toy (λ host port reuse. bound) (λ request. returned) shop_env open_app
      (codes "127.0.0.1:80") false (cart true) serve_runs (cart_served open_app.auth_handler) refl

-- The `OverflowError` of a port that is too large goes on.
port_too_large :
    check_port_free
      (λ host port reuse. bind_raises (other (codes "OverflowError")))
      (codes "a:70000")
      false
    ≡ raise (other (codes "OverflowError"))
unfolding check_port_free rpartition parse_int parse_nat all_digits
port_too_large = refl

assets :
    (static_files
      (codes "/srv/app")
      (codes "/")
      (codes "./out/../public")
      true
      none
      shop_app).static_routes
    ≡ record {
      path = codes "/";
      directory = codes "/srv/app/public";
      not_found = some (codes "/srv/app/public/index.html");
      fallback = true;
    }
      ∷ []
unfolding static_files resolve normpath normal_segments keep_segment index_page starts_with
    ends_with strip_right drop_while split join list_beq
assets = refl
