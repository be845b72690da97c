-- ===== src/Api/Handler/Json.antt =====
-- When the wrapper makes a plain JSON value of what a handler returns.
use mathlib.Core.Bool.{false≢true}
use vignemale.Api.Handler.{Pydantic, jsonable_fields, jsonable_items, to_jsonable}
use vignemale.Prelude.{Bool, ap, arith, false, refl, sym, true, ◌&&◌, ◌↔◌, ◌∙◌, ◌≡◌}
use vignemale.Python.{
  Fields, Items, Value, bool, cons, dict, end, field, int, list, model, nil, null, str, tuple,
}

-- The value holds no tuple and no Pydantic instance.
unfoldable mutual
  pub is_json : Value → Bool
  is_json (model c fields) = false
  is_json (tuple xs) = false
  is_json (list xs) = items_json xs
  is_json (dict fields) = fields_json fields
  is_json null = true
  is_json (bool b) = true
  is_json (int n) = true
  is_json (str s) = true

  pub items_json : Items → Bool
  items_json nil = true
  items_json (cons v xs) = let rest = items_json xs in is_json v && rest

  pub fields_json : Fields → Bool
  fields_json end = true
  fields_json (field k v fs) = let rest = fields_json fs in is_json v && rest

-- The dump of each Pydantic instance that the wrapper reaches holds no tuple and no instance.
-- `model_dump()` keeps a tuple in a field as it is.
unfoldable mutual
  unfolding is_json

  pub dumps_json : Pydantic → Value → Bool
  dumps_json P (model c fields) = is_json (P.dump c fields)
  dumps_json P (tuple xs) = items_dump P xs
  dumps_json P (list xs) = items_dump P xs
  dumps_json P (dict fields) = fields_dump P fields
  dumps_json P null = true
  dumps_json P (bool b) = true
  dumps_json P (int n) = true
  dumps_json P (str s) = true

  pub items_dump : Pydantic → Items → Bool
  items_dump P nil = true
  items_dump P (cons v xs) = let rest = items_dump P xs in dumps_json P v && rest

  pub fields_dump : Pydantic → Fields → Bool
  fields_dump P end = true
  fields_dump P (field k v fs) = let rest = fields_dump P fs in dumps_json P v && rest

module _ (P : Pydantic) where
  mutual
    unfolding is_json dumps_json to_jsonable

    to_jsonable-is_json : (v : Value) → is_json (to_jsonable P v) ≡ dumps_json P v
    to_jsonable-is_json (model c fields) = refl
    to_jsonable-is_json (tuple xs) = jsonable_items-is_json xs
    to_jsonable-is_json (list xs) = jsonable_items-is_json xs
    to_jsonable-is_json (dict fields) = jsonable_fields-is_json fields
    to_jsonable-is_json null = refl
    to_jsonable-is_json (bool b) = refl
    to_jsonable-is_json (int n) = refl
    to_jsonable-is_json (str s) = refl

    jsonable_items-is_json : (xs : Items) → items_json (jsonable_items P xs) ≡ items_dump P xs
    jsonable_items-is_json nil = refl
    jsonable_items-is_json (cons v xs) =
        let first = to_jsonable-is_json v in
        let rest = jsonable_items-is_json xs in λ i. first i && rest i

    jsonable_fields-is_json : (fs : Fields) → fields_json (jsonable_fields P fs) ≡ fields_dump P fs
    jsonable_fields-is_json end = refl
    jsonable_fields-is_json (field k v fs) =
        let first = to_jsonable-is_json v in
        let rest = jsonable_fields-is_json fs in λ i. first i && rest i

module _ (P : Pydantic) where
  mutual
    unfolding is_json to_jsonable

    to_jsonable-eq : (v : Value) → is_json v ≡ true → to_jsonable P v ≡ v
    to_jsonable-eq (model c fields) h = absurd (false≢true h)
    to_jsonable-eq (tuple xs) h = absurd (false≢true h)
    to_jsonable-eq (list xs) h = ap (λ ys. list ys) (jsonable_items-eq xs h)
    to_jsonable-eq (dict fields) h = ap (λ gs. dict gs) (jsonable_fields-eq fields h)
    to_jsonable-eq null h = refl
    to_jsonable-eq (bool b) h = refl
    to_jsonable-eq (int n) h = refl
    to_jsonable-eq (str s) h = refl

    jsonable_items-eq : (xs : Items) → items_json xs ≡ true → jsonable_items P xs ≡ xs
    jsonable_items-eq nil h = refl
    jsonable_items-eq (cons v xs) h =
        let p : to_jsonable P v ≡ v = to_jsonable-eq v (ground arith) in
        let q : jsonable_items P xs ≡ xs = jsonable_items-eq xs (ground arith) in
        λ i. cons (p i) (q i)

    jsonable_fields-eq : (fs : Fields) → fields_json fs ≡ true → jsonable_fields P fs ≡ fs
    jsonable_fields-eq end h = refl
    jsonable_fields-eq (field k v fs) h =
        let p : to_jsonable P v ≡ v = to_jsonable-eq v (ground arith) in
        let q : jsonable_fields P fs ≡ fs = jsonable_fields-eq fs (ground arith) in
        λ i. field k (p i) (q i)

-- Whatever a handler returns, the wrapper returns a value without tuples and Pydantic instances if
-- and only if each instance in it is dumped to such a value; and a value without tuples and
-- instances comes through unchanged.
pub to_jsonable-normal :
    (P : Pydantic) (v : Value)
    → ((is_json (to_jsonable P v) ≡ true) ↔ (dumps_json P v ≡ true))
      × (is_json v ≡ true → to_jsonable P v ≡ v)
to_jsonable-normal P v =
    let same = to_jsonable-is_json P v in ((λ h. sym same ∙ h, λ h. same ∙ h), to_jsonable-eq P v)
