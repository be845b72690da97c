-- ===== src/Call/Http.antt =====
-- `_call_http` and `call` of `vignemale/call.py`. The transport, the clock and JSON are parameters.
pub mod Errors
use vignemale.Api.Errors.{fail, new_api_error}
use vignemale.Api.Gateway.{service_key}
use vignemale.Api.Handler.{Pydantic}
use vignemale.Api.Registry.{App, Ctx, Kwargs, Session}
use vignemale.Call.Local.{call_local, ctx_auth, ctx_trace, plain_body}
use vignemale.Call.Sign.{Crypto, sign}
use vignemale.Call.Trace.{child_traceparent}
use vignemale.Prelude.{
  Option, [], if◌then◌else◌, list_beq, nat_eq, none, opt_eq, or_else, pair_eq, some, ℕ, ◌++◌, ◌==◌,
  ◌∷◌,
}
use vignemale.Prelude.Dict.{Dict, insert, lookup}
use vignemale.Prelude.Text.{Text, codes, print_nat, strip_right, text_eq}
use vignemale.Python.{
  ApiError, Exception, Fields, Result, Value, api_error, attribute_error, dict, end, field, list,
  null, ok, raise, str, type_error, value_error,
}
use vignemale.Python.Env.{Env, get_env}

-- `dumps` and `loads` of `json`; `loads` gives none for what raises a `ValueError`.
pub record Json : Type 0 where
  pub dumps : Value → Text
  pub loads : Text → Option Value

pub record HttpRequest : Type 0 where
  pub url : Text
  pub payload : Text
  pub headers : Dict Text Text
  pub timeout : Text

-- How `urlopen` ends: a response, an `HTTPError` with status and body, or a `URLError`.
pub data Reply : Type 0 where
  response : Text → Reply
  http_error : ℕ → Text → Reply
  url_error : Text → Reply

-- What one call takes from the process: the clock, and random hexadecimal ids.
pub record Fresh : Type 0 where
  pub now : Text
  pub trace : Text
  pub span : Text

abbrev remote_failed : Text → Text → ℕ → Exception → Result Value
remote_failed service endpoint status (value_error _) =
    fail (codes "internal")
      (codes "call " ++ service ++ codes "." ++ endpoint ++ codes ": HTTP " ++ print_nat status)
      null
remote_failed service endpoint status e = raise e

abbrev pub get_or : Text → Value → Fields → Value
get_or k default end = default
get_or k default (field j v rest) = if j == k then v else get_or k default rest

-- `APIError(err.get("code", "internal"), err.get("message", "?"), err.get("details"))`
abbrev error_from : Value → Value → Value → Result ApiError
error_from (str code) message details = new_api_error code message details
error_from (list _) message details = raise (type_error (codes "unhashable type: 'list'"))
error_from (dict _) message details = raise (type_error (codes "unhashable type: 'dict'"))
error_from _ message details = raise (value_error (codes "unknown API error code"))

unfoldable pub decode_error : Option Value → Result ApiError
decode_error none = raise (value_error (codes "JSON"))
decode_error (some (dict err)) =
    error_from (get_or (codes "code") (str (codes "internal")) err)
      (get_or (codes "message") (str (codes "?")) err) (get_or (codes "details") null err)
decode_error (some _) = raise (attribute_error (codes "get"))

abbrev raise_decoded : Text → Text → ℕ → Result ApiError → Result Value
raise_decoded service endpoint status (ok e) = raise (api_error e)
raise_decoded service endpoint status (raise e) = remote_failed service endpoint status e

abbrev or_json_error : Option Value → Result Value
or_json_error none = raise (value_error (codes "JSON"))
or_json_error (some v) = ok v

module _ (J : Json) where
  -- The `try` round `urlopen`.
  unfoldable pub read_reply : Text → Text → Reply → Result Value
  read_reply service endpoint (response body) = or_json_error (J.loads body)
  read_reply service endpoint (http_error status body) =
      raise_decoded service endpoint status (decode_error (J.loads body))
  read_reply service endpoint (url_error reason) =
      fail (codes "unavailable") (codes "service " ++ service ++ codes " unreachable: " ++ reason)
        null

  abbrev str_fields : Dict Text Text → Fields
  str_fields [] = end
  str_fields ((k, v) ∷ d) = field k (str v) (str_fields d)

  abbrev call_payload : Dict Text Text → Value → Text
  call_payload params body =
      J.dumps
        (dict (field (codes "params") (dict (str_fields params)) (field (codes "body") body end)))

  -- `json.dumps(ctx["auth"]) if ctx.get("auth") is not None else ""`
  unfoldable pub auth_header : Value → Text
  auth_header null = []
  auth_header v = J.dumps v

  abbrev text_value : Value → Text
  text_value (str s) = s
  text_value _ = []

  -- `if value: headers[name] = value`
  unfoldable pub add_header : Text → Text → Dict Text Text → Dict Text Text
  unfolding insert list_beq
  add_header name [] headers = headers
  add_header name (c ∷ s) headers = insert name (c ∷ s) headers

  -- The signed request, once the secret is known.
  unfoldable pub call_request :
      Crypto → Env → Fresh → Text → Text → Text → Text → Option Ctx → HttpRequest
  unfolding sign child_traceparent auth_header add_header ctx_trace get_env strip_right list_beq
  call_request C env fresh secret base_url endpoint payload ctx =
      let caller = or_else (lookup (codes "VIGNEMALE_SERVICE_NAME") env) (codes "unknown") in
      let auth_data = auth_header (ctx_auth ctx) in
      record {
        url = strip_right (λ c. c == b'/') base_url ++ codes "/__vignemale/call/" ++ endpoint;
        payload = payload;
        headers =
            add_header (codes "X-Auth-Token")
              (or_else (lookup (codes "VIGNEMALE_CONTAINER_TOKEN") env) [])
              (add_header (codes "x-vignemale-auth-data") auth_data (
                (codes "content-type", codes "application/json")
                ∷ (codes "x-vignemale-date", fresh.now)
                ∷ (codes "x-vignemale-caller", caller)
                ∷ (
                  codes "x-vignemale-signature",
                  sign C secret fresh.now caller endpoint payload auth_data,
                )
                ∷ (
                  codes "traceparent",
                  child_traceparent (text_value (ctx_trace ctx)) fresh.trace fresh.span,
                )
                ∷ []));
        timeout = or_else (lookup (codes "VIGNEMALE_CALL_TIMEOUT") env) (codes "30");
      }

  module _ (P : Pydantic) (C : Crypto) (urlopen : HttpRequest → Reply) where
    -- `_call_http`
    unfoldable pub call_http :
        Env → Fresh → Text → Text → Text → Value → Dict Text Text → Option Ctx → Result Value
    call_http env fresh base_url service endpoint body params ctx =
        elim (get_env (codes "VIGNEMALE_SERVICE_SECRET") env) [
          | none ↦
              fail (codes "internal")
                (codes "VIGNEMALE_SERVICE_SECRET required for inter-service calls") null
          | some secret ↦ read_reply service endpoint (
              urlopen (
                call_request C env fresh secret base_url endpoint
                  (call_payload params (plain_body P body)) ctx))
        ]

    -- `call(service, endpoint, body, **params)`; `printed` is `str` of the parameters.
    unfoldable pub call_service :
        {W : Type 0}
        → App W
        → Env
        → Fresh
        → Text
        → Text
        → Value
        → Kwargs
        → Dict Text Text
        → Session W
        → Result Value × Session W
    unfolding call_local call_http get_env
    call_service app env fresh service endpoint body params printed s =
        elim (get_env (service_key service) env) [
          | none ↦ call_local P app service endpoint body params s
          | some base_url ↦ (call_http env fresh base_url service endpoint body printed s.ctx, s)
        ]
