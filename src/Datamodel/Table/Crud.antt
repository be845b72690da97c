-- ===== src/Datamodel/Table/Crud.antt =====
-- `create`, `get`, `find` and the other operations of a `Table`.
use vignemale.Api.Handler.{Pydantic}
use vignemale.Datamodel.Columns.{TableClass}
use vignemale.Datamodel.Table.{Core, Request, Tables, run_op}
use vignemale.Prelude.{
  Bool, List, Option, [], false, if◌then◌else◌, inl, inr, list_beq, nat_eq, none, opt_eq, or_else,
  pair_eq, some, true, ◌==◌, ◌∷◌,
}
use vignemale.Prelude.Text.{Text, codes, text_eq}
use vignemale.Python.{
  Fields, Items, Result, Value, and_then, attribute_error, cons, dict, end, field, list, model, nil,
  null, ok, raise, type_error, validation_error, value_error, ◌>>=◌,
}
use vignemale.Python.Env.{Env}

-- The fields of an instance or a dict.
abbrev fields_of : Value → Fields
fields_of (model c fields) = fields
fields_of (dict fields) = fields
fields_of _ = end

-- fields.pop(k, None)
unfoldable pub drop_field : Text → Fields → Fields
drop_field k end = end
drop_field k (field j v rest) =
    let dropped = drop_field k rest in if j == k then dropped else field j v dropped

unfoldable pub find_field : Text → Fields → Option Value
find_field k end = none
find_field k (field j v rest) = let found = find_field k rest in if j == k then some v else found

abbrev is_null : Value → Bool
is_null null = true
is_null _ = false

-- getattr(self, "id", None)
abbrev id_of : Value → Value
id_of v = or_else (find_field (codes "id") (fields_of v)) null

abbrev one_arg : Text → Value → Fields
one_arg k v = field k v end

module _ (C : Core) (env : Env) (P : Pydantic) where
  -- `cls(**fields)` and `cls.model_validate(v)`
  abbrev validated : TableClass → Value → Result Value
  validated t v = elim (P.validate t.model_name v) [
    | inl errors ↦ raise (validation_error t.model_name)
    | inr obj ↦ ok obj
  ]

  -- obj.model_dump()
  abbrev dumped : Value → Value
  dumped (model c fields) = P.dump c fields
  dumped v = v

  -- `model_dump()` without an `id` of `None`
  unfoldable pub insert_values : Value → Fields
  unfolding drop_field find_field list_beq
  insert_values obj =
      let values = fields_of (dumped obj) in
      if is_null (or_else (find_field (codes "id") values) null)
      then drop_field (codes "id") values
      else values

  abbrev request : Text → Fields → Request
  request op args = record { op = op; args = args }

  -- `create(**fields)`
  unfoldable pub create : TableClass → Fields → Tables C → Result Value × Tables C
  unfolding run_op insert_values
  create t fields s =
      and_then (validated t (dict fields), s)
        (λ obj s1.
          and_then
            (run_op C env t
              (request (codes "insert") (one_arg (codes "values") (dict (insert_values obj)))) s1)
            (λ row s2. (validated t row, s2)))

  abbrev row_or_none : TableClass → Value → Result Value
  row_or_none t null = ok null
  row_or_none t row = validated t row

  -- `get(id)`
  unfoldable pub get : TableClass → Value → Tables C → Result Value × Tables C
  unfolding run_op
  get t id s =
      and_then (run_op C env t (request (codes "get") (one_arg (codes "pk") id)) s)
        (λ row s'. (row_or_none t row, s'))

  unfoldable pub validated_rows : TableClass → Items → Result (List Value)
  validated_rows t nil = ok []
  validated_rows t (cons row rows) = do
    obj ← validated t row
    objs ← validated_rows t rows
    ok (obj ∷ objs)

  -- The rows of an answer; the core answers `find` with a list.
  abbrev answered_rows : TableClass → Value → Result (List Value)
  answered_rows t (list rows) = validated_rows t rows
  answered_rows t _ = raise (type_error (codes "not iterable"))

  -- `find(**where)`
  unfoldable pub find : TableClass → Fields → Tables C → Result (List Value) × Tables C
  unfolding run_op validated_rows
  find t criteria s =
      and_then (run_op C env t (request (codes "find") (one_arg (codes "where") (dict criteria))) s)
        (λ rows s'. (answered_rows t rows, s'))

  abbrev first_or_null : List Value → Value
  first_or_null [] = null
  first_or_null (row ∷ _) = row

  -- `find_one(**where)`
  unfoldable pub find_one : TableClass → Fields → Tables C → Result Value × Tables C
  unfolding find
  find_one t criteria s = and_then (find t criteria s) (λ rows s'. (ok (first_or_null rows), s'))

  -- `count(**where)`
  unfoldable pub count : TableClass → Fields → Tables C → Result Value × Tables C
  unfolding run_op
  count t criteria s =
      run_op C env t (request (codes "count") (one_arg (codes "where") (dict criteria))) s

  -- `self.save()`
  unfoldable pub save : TableClass → Value → Tables C → Result Value × Tables C
  unfolding run_op drop_field find_field list_beq
  save t self s =
      if is_null (id_of self)
      then (raise (value_error (codes "save() requires an id — use create()")), s)
      else and_then
          (run_op C env t
            (request (codes "update") (
              field (codes "pk") (id_of self) (
                one_arg (codes "values")
                  (dict (drop_field (codes "id") (fields_of (dumped self)))))))
            s)
          (λ _ s'. (ok self, s'))

  -- `self.delete()`
  unfoldable pub delete : TableClass → Value → Tables C → Result Value × Tables C
  unfolding run_op find_field list_beq
  delete t self s = elim (find_field (codes "id") (fields_of self)) [
    | none ↦ (raise (attribute_error (codes "id")), s)
    | some id ↦
        and_then (run_op C env t (request (codes "delete") (one_arg (codes "pk") id)) s)
          (λ _ s'. (ok null, s'))
  ]

  abbrev no_criterion : Fields → Bool
  no_criterion end = true
  no_criterion _ = false

  -- `delete_where(**where)`
  unfoldable pub delete_where : TableClass → Fields → Tables C → Result Value × Tables C
  unfolding run_op
  delete_where t criteria s =
      if no_criterion criteria
      then (raise (value_error (codes "delete_where() requires at least one criterion")), s)
      else run_op C env t (request (codes "delete_where") (one_arg (codes "where") (dict criteria)))
          s

  -- `update_where(values, **where)`
  unfoldable pub update_where : TableClass → Fields → Fields → Tables C → Result Value × Tables C
  unfolding run_op
  update_where t values criteria s =
      if no_criterion criteria
      then (raise (value_error (codes "update_where() requires at least one criterion")), s)
      else run_op C env t
          (request (codes "update_where")
            (field (codes "values") (dict values) (one_arg (codes "where") (dict criteria))))
          s
