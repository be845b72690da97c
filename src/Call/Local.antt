-- ===== src/Call/Local.antt =====
-- `_call_local` of `vignemale/call.py`: the service lives in the process, and the call is direct.
pub mod Context
use vignemale.Api.Errors.{fail}
use vignemale.Api.Handler.{Pydantic, body_key, wrapper}
use vignemale.Api.Registry.{App, Ctx, Endpoint, Kwargs, Session, in_service, modules_of}
use vignemale.Prelude.{
  Bool, List, Option, [], if◌then◌else◌, is_empty, list_beq, nat_eq, none, opt_eq, pair_eq, some,
  ◌&&◌, ◌++◌, ◌==◌, ◌||◌, ◌∷◌,
}
use vignemale.Prelude.Dict.{insert}
use vignemale.Prelude.Text.{Text, codes, text_eq}
use vignemale.Python.{Result, Value, dict, end, field, model, null, str, truthy}

-- `ctx.get("auth")` and `ctx.get("traceparent") or ""`, of `_request_ctx.get() or {}`
abbrev pub ctx_auth : Option Ctx → Value
ctx_auth none = null
ctx_auth (some c) = c.auth

unfoldable pub ctx_trace : Option Ctx → Value
unfolding truthy
ctx_trace none = str []
ctx_trace (some c) = if truthy c.traceparent then c.traceparent else str []

module _ (P : Pydantic) where
  -- `body if not hasattr(body, "model_dump") else body.model_dump()`
  unfoldable pub plain_body : Value → Value
  plain_body (model c fields) = P.dump c fields
  plain_body body = body

  -- `if body is not None: kwargs["body"] = …`
  unfoldable pub with_body : Value → Kwargs → Kwargs
  unfolding insert list_beq
  with_body null params = params
  with_body (model c fields) params = insert body_key (P.dump c fields) params
  with_body body params = insert body_key body params

  unfoldable pub local_kwargs : Value → Kwargs → Option Ctx → Kwargs
  local_kwargs body params ctx = insert (codes "query") (dict end) (
      insert (codes "headers") (dict (field (codes "traceparent") (ctx_trace ctx) end))
        (insert (codes "auth") (ctx_auth ctx) (with_body body params)))

  module _ {W : Type 0} (modules : List Text) (service endpoint : Text) (body : Value)
      (params : Kwargs) where
    -- The loop skips the endpoint by neither `continue`.
    unfoldable pub matches : Endpoint W → Bool
    unfolding list_beq in_service
    matches e = (e.name == endpoint) && (is_empty modules || in_service modules e.module_name)

    unfoldable pub call_endpoint : Endpoint W → Session W → Result Value × Session W
    call_endpoint e s =
        if e.stream
        then (
          fail (codes "unimplemented") (codes "call() does not support streaming endpoints") null,
          s,
        )
        else e.wrapper (local_kwargs body params s.ctx) s

    -- The loop over `_endpoints`, and the error after it.
    unfoldable pub call_first : List (Endpoint W) → Session W → Result Value × Session W
    call_first [] s = (
      fail (codes "not_found")
          (codes "endpoint " ++ service ++ codes "." ++ endpoint ++ codes " not found") null,
      s,
    )
    call_first (e ∷ endpoints) s = if matches e then call_endpoint e s else call_first endpoints s

  unfoldable pub call_local :
      {W : Type 0} → App W → Text → Text → Value → Kwargs → Session W → Result Value × Session W
  unfolding modules_of call_first
  call_local app service endpoint body params s =
      call_first (modules_of service app.services) service endpoint body params app.endpoints s
