-- ===== src/Api/Handler.antt =====
-- The wrapper that `@api` puts around a handler, `_to_jsonable` and `_auth_adapter` of
-- `vignemale/api.py`. Pydantic is a parameter: `validate` is `model_validate`, with the error list
-- of a `ValidationError` on the left, and `dump` is `model_dump`.
pub mod Context
pub mod Json
use vignemale.Api.Errors.{fail}
use vignemale.Api.Registry.{Ctx, Function, Kwargs, Session}
use vignemale.Prelude.{
  Bool, List, Option, any, if◌then◌else◌, inl, inr, list_beq, nat_eq, none, not, opt_eq, or_else,
  pair_eq, some, ◌&&◌, ◌==◌, ◌⊎◌,
}
use vignemale.Prelude.Dict.{has_key, insert, lookup, restrict}
use vignemale.Prelude.Text.{Text, codes, text_eq}
use vignemale.Python.{
  Fields, Items, Result, Value, bool, cons, dict, end, field, int, list, model, nil, null, ok,
  raise, str, tuple,
}

pub record Pydantic : Type 0 where
  pub validate : Text → Value → Value ⊎ Value
  pub dump : Text → Fields → Value

-- One parameter of a function's signature.
pub record Param : Type 0 where
  pub name : Text
  pub has_default : Bool

-- What the decorator reads off the function: `body_model` is the Pydantic class that annotates
-- `body`.
pub record Signature : Type 0 where
  pub params : List Param
  pub var_kwargs : Bool
  pub body_model : Option Text

abbrev pub body_key : Text
body_key = codes "body"

-- `k in accepted`
unfoldable pub accepts : Signature → Text → Bool
unfolding list_beq
accepts sig k = any (λ p. p.name == k) sig.params

unfoldable pub body_required : Signature → Bool
unfolding list_beq
body_required sig = any (λ p. (p.name == body_key) && not p.has_default) sig.params

-- d.get(k), `None` if absent
abbrev pub get_or_none : Text → Kwargs → Value
get_or_none k d = or_else (lookup k d) null

abbrev field_of : Text → Fields → Value
field_of k end = null
field_of k (field j v rest) = if j == k then v else field_of k rest

-- `(headers or {}).get(k)`, where `headers` is a dict or `None`
unfoldable pub get_field : Text → Value → Value
unfolding list_beq
get_field k (dict fields) = field_of k fields
get_field k _ = null

unfoldable pub request_ctx : Kwargs → Ctx
unfolding get_field list_beq
request_ctx kwargs = record {
  traceparent = get_field (codes "traceparent") (get_or_none (codes "headers") kwargs);
  auth = get_or_none (codes "auth") kwargs;
}

module _ (P : Pydantic) where
  unfoldable mutual
    pub to_jsonable : Value → Value
    to_jsonable (model c fields) = P.dump c fields
    to_jsonable (dict fields) = dict (jsonable_fields fields)
    to_jsonable (list xs) = list (jsonable_items xs)
    to_jsonable (tuple xs) = list (jsonable_items xs)
    to_jsonable null = null
    to_jsonable (bool b) = bool b
    to_jsonable (int n) = int n
    to_jsonable (str s) = str s

    pub jsonable_items : Items → Items
    jsonable_items nil = nil
    jsonable_items (cons v xs) = cons (to_jsonable v) (jsonable_items xs)

    pub jsonable_fields : Fields → Fields
    jsonable_fields end = end
    jsonable_fields (field k v fs) = field k (to_jsonable v) (jsonable_fields fs)

  -- The `try` round `model_validate`.
  abbrev pub typed_body : Kwargs → Value ⊎ Value → Result Kwargs
  typed_body kwargs (inl errors) = fail (codes "invalid_argument") (codes "invalid request") errors
  typed_body kwargs (inr typed) = ok (insert body_key typed kwargs)

  abbrev pub check_body : Text → Kwargs → Option Value → Result Kwargs
  check_body m kwargs none = ok kwargs
  check_body m kwargs (some v) = typed_body kwargs (P.validate m v)

  -- The body, validated by its model if the handler declares one.
  unfoldable pub validate_body : Option Text → Kwargs → Result Kwargs
  validate_body none kwargs = ok kwargs
  validate_body (some m) kwargs = check_body m kwargs (lookup body_key kwargs)

  -- What the wrapper does before it calls the handler.
  unfoldable pub prepare : Signature → Kwargs → Result Kwargs
  prepare sig kwargs =
      let passed = if sig.var_kwargs then kwargs else restrict (accepts sig) kwargs in
      if body_required sig && not (has_key body_key passed)
      then fail (codes "invalid_argument") (codes "request body required") null
      else validate_body sig.body_model passed

  abbrev jsonable_result : Result Value → Result Value
  jsonable_result (ok v) = ok (to_jsonable v)
  jsonable_result (raise e) = raise e

  abbrev normalize : Result Value → Result Value
  normalize (ok (model c fields)) = ok (P.dump c fields)
  normalize r = r

  module _ {W : Type 0} where
    -- `wrapper(**kwargs)`; `finally` puts back the context that was there before.
    unfoldable pub wrapper : Signature → Function W → Function W
    wrapper sig func kwargs s = elim (prepare sig kwargs) [
      | raise e ↦ (raise e, s)
      | ok passed ↦
          let (r, s') = func passed (record s { ctx = some (request_ctx kwargs) }) in
          (jsonable_result r, record s' { ctx = s.ctx })
    ]

    -- `_auth_adapter(token)`
    unfoldable pub auth_adapter :
        (Text → Session W → Result Value × Session W) → Text → Session W → Result Value × Session W
    auth_adapter handler token s = let (r, s') = handler token s in (normalize r, s')
