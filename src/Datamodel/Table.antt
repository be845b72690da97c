-- ===== src/Datamodel/Table.antt =====
-- `Table` of `vignemale/datamodel.py`: what it asks of the core. The core is a parameter.
pub mod Program
pub mod Ensured
pub mod Registry
pub mod Crud
pub mod Checked
use vignemale.Backends.{dsn}
use vignemale.Datamodel.Columns.{ColumnSpec, TableClass, schema_columns}
use vignemale.Prelude.{
  List, [], contains, if◌then◌else◌, inl, inr, is_empty, nat_eq, opt_eq, pair_eq, ◌++◌, ◌∷◌, ◌⊎◌,
}
use vignemale.Prelude.Text.{Text, codes, text_eq}
use vignemale.Python.{Fields, Result, Value, and_then, end, ok, raise, sql_error, ◌>>=◌, ◌>>◌}
use vignemale.Python.Env.{Env}

-- The JSON descriptor of `_schema()`.
pub record TableSpec : Type 0 where
  pub table : Text
  pub columns : List ColumnSpec

-- The operation and its arguments.
pub record Request : Type 0 where
  pub op : Text
  pub args : Fields

-- `sqldb_orm(dsn, …)` and `sqldb_prepare(dsn, query)`: the text of a `RuntimeError`, or the answer.
pub record Core : Type 1 where
  pub State : Type 0
  pub orm : Text → TableSpec → Request → State → (Text ⊎ Value) × State
  pub prepare : Text → Text → State → Text ⊎ Value

-- The core, the classes whose `__ensured` is set, by name, and `sqldb._databases`, by name.
pub record Tables (C : Core) : Type 0 where
  pub core : C.State
  pub ensured : List Text
  pub databases : List Text

unfoldable pub schema : TableClass → Result TableSpec
unfolding schema_columns
schema t = do
  columns ← schema_columns t.columns
  ok (record { table = t.tablename; columns = columns })

-- `_db().dsn`; the `RuntimeError` of `_db` is raised again as `SQLError` by the callers.
unfoldable pub address : Env → TableClass → Result Text
unfolding dsn
address env t =
    if is_empty t.database
    then raise (sql_error (t.model_name ++ codes ": __database__ not declared"))
    else dsn env t.database

-- The databases after `_db()`: a declared one is appended at each call.
unfoldable pub registered : TableClass → List Text → List Text
registered t names = if is_empty t.database then names else names ++ (t.database ∷ [])

abbrev pub ensure_request : Request
ensure_request = record { op = codes "ensure"; args = end }

abbrev pub reply : {S : Type 0} → (Text ⊎ Value) × S → Result Value × S
reply (inl message, s) = (raise (sql_error message), s)
reply (inr v, s) = (ok v, s)

module _ (C : Core) (env : Env) where
  -- What `_raw_op` does to the core.
  unfoldable pub ask : TableClass → Request → C.State → Result Value × C.State
  ask t q c = elim (address env t) [
    | raise e ↦ (raise e, c)
    | ok url ↦ elim (schema t) [ raise e ↦ (raise e, c) | ok spec ↦ reply (C.orm url spec q c) ]
  ]

  -- `_raw_op(op, **args)`
  unfoldable pub raw_op : TableClass → Request → Tables C → Result Value × Tables C
  unfolding ask registered
  raw_op t q s =
      let (r, c) = ask t q s.core in
      (r, record s { core = c; databases = registered t s.databases })

  abbrev pub mark : TableClass → Value → Tables C → Result (Unit {0}) × Tables C
  mark t v s = (ok tt, record s { ensured = s.ensured ++ (t.model_name ∷ []) })

  -- `_ensure()`
  unfoldable pub ensure : TableClass → Tables C → Result (Unit {0}) × Tables C
  unfolding raw_op
  ensure t s =
      if contains t.model_name s.ensured
      then (ok tt, s)
      else and_then (raw_op t ensure_request s) (mark t)

  -- `_op(op, **args)`
  unfoldable pub run_op : TableClass → Request → Tables C → Result Value × Tables C
  unfolding ensure
  run_op t q s = and_then (ensure t s) (λ _ s'. raw_op t q s')

  -- The table must exist before a query is prepared; the first exception ends the loop.
  unfoldable pub ensure_all : List TableClass → Tables C → Result (Unit {0}) × Tables C
  unfolding ensure
  ensure_all [] s = (ok tt, s)
  ensure_all (t ∷ tables) s = and_then (ensure t s) (λ _ s'. ensure_all tables s')

  -- `_prepare_check(query)`
  unfoldable pub prepare_check : TableClass → Text → Tables C → Result Value × Tables C
  unfolding registered address
  prepare_check t query s =
      let s' = record s { databases = registered t s.databases } in
      elim (address env t) [
        | raise e ↦ (raise e, s')
        | ok url ↦ elim (C.prepare url query s.core) [
          | inl message ↦ (raise (sql_error message), s')
          | inr v ↦ (ok v, s')
        ]
      ]

-- One report of `check_sql_queries`: what the core inferred, or the error.
pub record SqlReport : Type 0 where
  pub query : Text
  pub outcome : Text ⊎ Value

-- An entry of `_sql_queries`.
pub record SqlQuery : Type 0 where
  pub owner : TableClass
  pub attribute_name : Text
  pub compiled : Text

abbrev pub label : SqlQuery → Text
label q = q.owner.model_name ++ (b'.' ∷ q.attribute_name)

module _ (C : Core) (env : Env) where
  -- `SQLError` is reported, any other exception goes on.
  abbrev pub report_of : SqlQuery → Result Value → Result SqlReport
  report_of q (ok v) = ok (record { query = label q; outcome = inr v })
  report_of q (raise (sql_error e)) = ok (record { query = label q; outcome = inl e })
  report_of q (raise e) = raise e

  -- The loop over `_sql_queries`.
  unfoldable pub check_queries : List SqlQuery → Tables C → Result (List SqlReport) × Tables C
  unfolding prepare_check
  check_queries [] s = (ok [], s)
  check_queries (q ∷ queries) s =
      let (r, s1) = prepare_check C env q.owner q.compiled s in
      and_then (report_of q r, s1)
        (λ report s2.
          and_then (check_queries queries s2) (λ reports s3. (ok (report ∷ reports), s3)))

  -- `check_sql_queries()`
  unfoldable pub check_sql_queries :
      List TableClass → List SqlQuery → Tables C → Result (List SqlReport) × Tables C
  unfolding ensure_all check_queries
  check_sql_queries tables queries s =
      and_then (ensure_all C env tables s) (λ _ s'. check_queries queries s')
