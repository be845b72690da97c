-- ===== src/Sqldb/Migrate.antt =====
-- `SQLDatabase.migrate` of `vignemale/sqldb.py`, over a database that runs a script as a whole or
-- refuses it. A failed script leaves the database as it was, since it stands in one transaction.
pub mod Applied
pub mod Literal
use vignemale.Prelude.{
  List, Option, [], contains, false, if◌then◌else◌, inl, inr, nat_eq, none, opt_eq, pair_eq, some,
  true, ℕ, ◌++◌, ◌+◌, ◌==◌, ◌∷◌, ◌⊎◌,
}
use vignemale.Prelude.Text.{Text, codes, is_space, strip_right, text_eq}
use vignemale.Python.{Result, ok, raise, sql_error}

pub record Database : Type 1 where
  pub State : Type 0
  -- `sqldb_batch`: the error text on the left
  pub batch : Text → State → Text ⊎ State
  -- the rows of `SELECT name FROM _vignemale_migrations`, and the error of that query, if it fails
  pub names : State → List Text
  pub query_error : State → Option Text

abbrev pub quote : ℕ
quote = b'\''

-- name.replace("'", "''")
unfoldable pub escape : Text → Text
escape [] = []
escape (c ∷ s) = let rest = escape s in if c == quote then quote ∷ quote ∷ rest else c ∷ rest

abbrev pub create_script : Text
create_script =
    codes
      "CREATE TABLE IF NOT EXISTS _vignemale_migrations (name TEXT PRIMARY KEY, applied_at TIMESTAMPTZ NOT NULL DEFAULT now())"

-- The migration and its recording in one batch.
unfoldable pub migration_script : Text → Text → Text
unfolding escape strip_right
migration_script name sql =
    codes "BEGIN;\n"
    ++ (strip_right (λ c. c == b';') (strip_right is_space sql)
        ++ (codes ";\nINSERT INTO _vignemale_migrations (name) VALUES ('"
            ++ (escape name ++ codes "');\nCOMMIT;")))

module _ (D : Database) where
  -- `self.batch(sql)`
  unfoldable pub batch : Text → D.State → Result D.State
  batch sql d = elim (D.batch sql d) [ inl message ↦ raise (sql_error message) | inr d' ↦ ok d' ]

  abbrev pub after_batch :
      Result D.State → D.State → (D.State → Result ℕ × D.State) → Result ℕ × D.State
  after_batch (raise e) d rest = (raise e, d)
  after_batch (ok d') d rest = rest d'

  -- The loop over the files (name and text, sorted by name); the state comes back beside an error.
  unfoldable pub apply_files : List Text → List (Text × Text) → ℕ → D.State → Result ℕ × D.State
  apply_files done [] applied d = (ok applied, d)
  apply_files done ((name, sql) ∷ files) applied d = elim (contains name done) [
    | true ↦ apply_files done files applied d
    | false ↦
        after_batch (batch (migration_script name sql) d) d (apply_files done files (applied + 1))
  ]

  -- What follows the creation of the table: the query of the names, and the loop.
  unfoldable pub run_files : List (Text × Text) → D.State → Result ℕ × D.State
  run_files files d = elim (D.query_error d) [
    | some message ↦ (raise (sql_error message), d)
    | none ↦ apply_files (D.names d) files 0 d
  ]

  -- `migrate()`; the files are none if no directory is declared or it does not exist.
  unfoldable pub migrate : Option (List (Text × Text)) → D.State → Result ℕ × D.State
  migrate none d = (ok 0, d)
  migrate (some files) d = after_batch (batch create_script d) d (run_files files)
