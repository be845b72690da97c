-- ===== src/Tests/Call.antt =====
-- `vignemale/call.py`
use vignemale.Api.Errors.{error_of, new_api_error}
use vignemale.Api.Handler.{Pydantic}
use vignemale.Api.Registry.{Ctx, Endpoint, Session}
use vignemale.Call.Http.{Fresh, Json, http_error, read_reply}
use vignemale.Call.Http.Errors.{read_reply-api_error}
use vignemale.Call.Sign.{Crypto, sign_message, sign_message-injective}
use vignemale.Call.Trace.{child_traceparent, trace_id, trace_id-child_traceparent}
use vignemale.Prelude.{
  Bool, List, [], false, inr, list_beq, nat_eq, none, opt_eq, pair_eq, refl, some, true, ℕ, ◌++◌,
  ◌+◌, ◌∷◌, ◌≡◌,
}
use vignemale.Prelude.Text.{Text, codes, join, split, text_eq}
use vignemale.Python.{ApiError, api_error, dict, null, ok, raise, str}

abbrev no_models : Pydantic
no_models = record { validate = λ c v. inr v; dump = λ c fields. dict fields }

abbrev incoming : Ctx
incoming = record { traceparent = str (codes "00-a"); auth = str (codes "ada") }

abbrev named : Text → Bool → Endpoint ℕ
named n stream = record {
  name = n;
  method = codes "GET";
  path = codes "/";
  module_name = codes "shop.items";
  wrapper = λ kwargs s. (ok (str n), record s { world = s.world + 1 });
  stream = stream;
  auth = false;
  timeout = none;
  body_limit = none;
  expose = true;
}

abbrev start : Session ℕ
start = record { ctx = none; world = 0 }

abbrev mods : List Text
mods = codes "shop" ∷ []

abbrev toy_crypto : Crypto
toy_crypto = record { sha256 = λ t. codes "ab"; hmac = λ k t. k ++ t }

sign_message-injective_example :
    ◌≡◌ {A = Text} (codes "1") (codes "1")
    × ◌≡◌ {A = Text} (codes "me") (codes "me")
    × ◌≡◌ {A = Text} (codes "get") (codes "get")
    × ◌≡◌ {A = Text} (codes "ab") (codes "ab")
    × ◌≡◌ {A = Text} (codes "ab") (codes "ab")
unfolding sign_message
sign_message-injective_example =
    sign_message-injective toy_crypto (λ t. refl) (codes "1") (codes "me") (codes "get") (codes "x")
      [] (codes "1") (codes "me") (codes "get") (codes "y") [] (refl, (refl, (refl, tt)))
      (refl, (refl, (refl, tt))) refl

abbrev hex_id : Text
hex_id = codes "0123456789abcdef0123456789abcdef"

abbrev trace_in : Text
trace_in = codes "00-aaaaaaaaaaaaaaaaaaaaaaaaaaaaaaaa-bbbb-01"

child_runs :
    child_traceparent trace_in hex_id (codes "cccc")
    ≡ codes "00-aaaaaaaaaaaaaaaaaaaaaaaaaaaaaaaa-cccc-01"
unfolding child_traceparent trace_id split join
child_runs = refl

trace_id-child_traceparent_example :
    trace_id (split b'-' (child_traceparent trace_in hex_id (codes "cccc"))) (codes "zz")
    ≡ trace_id (split b'-' trace_in) hex_id
trace_id-child_traceparent_example =
    trace_id-child_traceparent trace_in hex_id (codes "cccc") (codes "zz") (refl, refl) refl

-- JSON that knows one text: the empty one stands for the error body below.
abbrev gone : ApiError
gone = error_of (codes "not_found") 404 (str (codes "gone")) null

abbrev toy_json : Json
toy_json = record { dumps = λ v. []; loads = λ t. some gone.body }

read_reply-api_error_example :
    read_reply toy_json (codes "s") (codes "e") (http_error 404 (toy_json.dumps gone.body))
    ≡ raise (api_error gone)
unfolding new_api_error list_beq
read_reply-api_error_example =
    read_reply-api_error toy_json (codes "s") (codes "e") (codes "not_found") (str (codes "gone"))
      null gone 404 refl refl

abbrev deaf_json : Json
deaf_json = record { dumps = λ v. []; loads = λ t. none }

abbrev fresh_ids : Fresh
fresh_ids = record { now = codes "1"; trace = hex_id; span = codes "cccc" }
