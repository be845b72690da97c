-- ===== src/Call/Http/Errors.antt =====
-- Errors of a call over HTTP.
use vignemale.Call.Http.{error_from}
use vignemale.Call.Http.{raise_decoded}
use vignemale.Api.Errors.{
  code_to_status, error_body, error_of, fail-eq, new_api_error, new_api_error-inv,
  new_api_error_unknown,
}
use vignemale.Api.Handler.{Pydantic}
use vignemale.Api.Registry.{Ctx}
use vignemale.Call.Http.{
  Fresh, HttpRequest, Json, Reply, call_http, decode_error, get_or, http_error, read_reply,
}
use vignemale.Call.Sign.{Crypto}
use vignemale.Prelude.{
  Option, ap, inl, inr, list_beq, nat_eq, none, opt_eq, pair_eq, refl, some, ℕ, ◌++◌, ◌∙◌, ◌≡◌, ◌⊎◌,
}
use vignemale.Prelude.Dict.{Dict, lookup}
use vignemale.Prelude.Text.{Text, codes, print_nat, text_eq}
use vignemale.Python.{ApiError, Fields, Value, api_error, dict, null, ok, raise, str}
use vignemale.Python.Env.{Env, get_env}

decode_error_body :
    (code : Text) (message details : Value)
    → decode_error (some (error_body code message details)) ≡ new_api_error code message details
unfolding decode_error list_beq
decode_error_body code message details = refl

-- An error of a known code crosses the wire unchanged in code and body: if the peer answers with
-- the body of an `APIError` that it built, and JSON decodes what it encoded, the caller raises an
-- `APIError` of the same code, the same body and the status of that code.
pub read_reply-api_error :
    (J : Json) (service endpoint : Text) (code : Text) (message details : Value) (e : ApiError)
    (status : ℕ)
    → new_api_error code message details ≡ ok e
    → J.loads (J.dumps e.body) ≡ some e.body
    → read_reply J service endpoint (http_error status (J.dumps e.body)) ≡ raise (api_error e)
unfolding read_reply
read_reply-api_error J service endpoint code message details e status made law =
    let (n, found, shape) = new_api_error-inv code message details made in
    let body_eq : e.body ≡ error_body code message details = ap (λ (x : ApiError). x.body) shape in
    ap (λ o. raise_decoded service endpoint status (decode_error o))
      (law ∙ ap (λ (b : Value). some b) body_eq)
    ∙ ap (raise_decoded service endpoint status) (decode_error_body code message details ∙ made)

-- A reply with an error status whose body is no JSON, or names no known code, is raised as an
-- `internal` error with status 500 that tells the status of the reply.
pub read_reply_unknown :
    (J : Json) (service endpoint : Text) (status : ℕ) (body : Text)
    → ((J.loads body ≡ none)
        ⊎ ((fields : Fields) × (code : Text) × (J.loads body ≡ some (dict fields))
            × (get_or (codes "code") (str (codes "internal")) fields ≡ str code)
            × (lookup code code_to_status ≡ none)))
    → read_reply J service endpoint (http_error status body)
      ≡ raise (
          api_error (
            error_of
              (codes "internal")
              500
              (str (
                codes "call "
                ++ service
                ++ codes "."
                ++ endpoint
                ++ codes ": HTTP "
                ++ print_nat status))
              null))
unfolding read_reply decode_error list_beq
read_reply_unknown J service endpoint status body (inl no_json) =
    ap (λ o. raise_decoded service endpoint status (decode_error o)) no_json
    ∙ fail-eq (codes "internal") 500
        (codes "call " ++ service ++ codes "." ++ endpoint ++ codes ": HTTP " ++ print_nat status)
        null refl
read_reply_unknown J service endpoint status body (inr (fields, code, read, named, absent)) =
    let message = get_or (codes "message") (str (codes "?")) fields in
    let details = get_or (codes "details") null fields in
    ap (λ o. raise_decoded service endpoint status (decode_error o)) read
    ∙ ap (λ v. raise_decoded service endpoint status (error_from v message details)) named
    ∙ ap (raise_decoded service endpoint status) (new_api_error_unknown code message details absent)
    ∙ fail-eq (codes "internal") 500
        (codes "call " ++ service ++ codes "." ++ endpoint ++ codes ": HTTP " ++ print_nat status)
        null refl

-- Without the shared secret no request is made: the call raises an `internal` error with status
-- 500, whatever the transport would answer.
pub call_http_no_secret :
    (J : Json) (P : Pydantic) (C : Crypto) (urlopen : HttpRequest → Reply) (env : Env)
    (fresh : Fresh) (base_url service endpoint : Text) (body : Value) (params : Dict Text Text)
    (ctx : Option Ctx)
    → get_env (codes "VIGNEMALE_SERVICE_SECRET") env ≡ none
    → call_http J P C urlopen env fresh base_url service endpoint body params ctx
      ≡ raise (
          api_error (
            error_of
              (codes "internal")
              500
              (str (codes "VIGNEMALE_SERVICE_SECRET required for inter-service calls"))
              null))
unfolding call_http list_beq
call_http_no_secret J P C urlopen env fresh base_url service endpoint body params ctx h =
    rw (h, call_http)
      (fail-eq (codes "internal") 500
        (codes "VIGNEMALE_SERVICE_SECRET required for inter-service calls") null refl)
