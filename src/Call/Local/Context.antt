-- ===== src/Call/Local/Context.antt =====
-- What a direct call hands to the callee, and which endpoint it reaches.
use vignemale.Api.Errors.{error_of, fail-eq}
use vignemale.Api.Gateway.{before}
use vignemale.Api.Handler.{Pydantic, get_field, request_ctx}
use vignemale.Api.Registry.{Ctx, Endpoint, Kwargs, Session}
use vignemale.Call.Local.{call_endpoint, call_first, ctx_auth, ctx_trace, local_kwargs, matches}
use vignemale.Prelude.{
  All, Bool, List, Option, [], any, ap, arith, false, list_beq, nat_eq, opt_eq, pair_eq, refl, some,
  true, ◌++◌, ◌∷◌, ◌≡◌,
}
use vignemale.Prelude.Dict.{lookup, lookup-insert}
use vignemale.Prelude.Text.{Text, codes, text_eq}
use vignemale.Python.{Result, Value, api_error, dict, end, field, null, raise, str, truthy}

module _ (P : Pydantic) (body : Value) (params : Kwargs) (ctx : Option Ctx) where
  lookup_headers :
      lookup (codes "headers") (local_kwargs P body params ctx)
      ≡ some (dict (field (codes "traceparent") (ctx_trace ctx) end))
  unfolding local_kwargs list_beq
  lookup_headers = simp lookup-insert

  lookup_auth : lookup (codes "auth") (local_kwargs P body params ctx) ≡ some (ctx_auth ctx)
  unfolding local_kwargs list_beq
  lookup_auth = simp lookup-insert

-- A direct call propagates the caller's request context: the context that the callee's wrapper
-- reads from its arguments is the caller's, whatever the parameters are named, if the caller has a
-- trace.
pub request_ctx-local_kwargs :
    (P : Pydantic) (body : Value) (params : Kwargs) (c : Ctx)
    → truthy c.traceparent ≡ true
    → request_ctx (local_kwargs P body params (some c)) ≡ c
unfolding request_ctx get_field list_beq ctx_trace
request_ctx-local_kwargs P body params c h =
    ground (arith, lookup_headers P body params (some c), lookup_auth P body params (some c))

module _ (P : Pydantic) {W : Type 0} (modules : List Text) (service endpoint : Text) (body : Value)
    (params : Kwargs) where
  abbrev reaches : Endpoint W → Bool
  reaches = matches P modules service endpoint body params

  -- The first endpoint in the order of registration that has the name, and is in the service if the
  -- service has modules, is the one that is called.
  pub call_first_match :
      (before after : List (Endpoint W)) (e : Endpoint W) (s : Session W)
      → any reaches before ≡ false
      → reaches e ≡ true
      → call_first P modules service endpoint body params (before ++ e ∷ after) s
        ≡ call_endpoint P modules service endpoint body params e s
  unfolding call_first
  call_first_match [] after e s none_before h = ground arith
  call_first_match (x ∷ before) after e s none_before h =
      ground (arith, call_first_match before after e s)

  -- If no endpoint is reached, the call raises `not_found` with status 404 and touches nothing.
  pub call_first_missing :
      (endpoints : List (Endpoint W)) (s : Session W)
      → any reaches endpoints ≡ false
      → call_first P modules service endpoint body params endpoints s ≡ (
        raise (
            api_error (
              error_of
                (codes "not_found")
                404
                (str (codes "endpoint " ++ service ++ codes "." ++ endpoint ++ codes " not found"))
                null)),
        s,
      )
  unfolding call_first list_beq
  call_first_missing [] s h =
      ap (λ (r : Result Value). (r, s))
        (fail-eq (codes "not_found") 404
          (codes "endpoint " ++ service ++ codes "." ++ endpoint ++ codes " not found") null refl)
  call_first_missing (x ∷ endpoints) s h = ground (arith, call_first_missing endpoints s)

  -- If every endpoint's wrapper leaves the request context as it was, so does a direct call.
  pub ctx-call_first :
      (endpoints : List (Endpoint W)) (s : Session W)
      → All (λ e. (kwargs : Kwargs) (t : Session W) → (e.wrapper kwargs t).1.ctx ≡ t.ctx) endpoints
      → (call_first P modules service endpoint body params endpoints s).1.ctx ≡ s.ctx
  unfolding call_first call_endpoint
  ctx-call_first [] s h = refl
  ctx-call_first (e ∷ endpoints) s h =
      ground (arith, ctx-call_first endpoints s h.1, h.0 (local_kwargs P body params s.ctx) s)
