-- ===== src/Tests/Sqldb.antt =====
-- `vignemale/sqldb.py`: migrations and transactions.
use vignemale.Prelude.{
  List, Option, [], if◌then◌else◌, inl, inr, list_beq, nat_eq, none, opt_eq, pair_eq, refl, some, ℕ,
  ◌++◌, ◌==◌, ◌∷◌, ◌≡◌, ◌⊎◌,
}
use vignemale.Prelude.Text.{Text, codes, strip_right, text_eq}
use vignemale.Python.{Result, ok, raise, value_error}
use vignemale.Sqldb.Migrate.{
  Database, apply_files, batch, create_script, escape, migrate, migration_script, quote, run_files,
}
use vignemale.Sqldb.Migrate.Applied.{Recorded, Records, migrate-Recorded, migrate_twice, pending}
use vignemale.Sqldb.Migrate.Literal.{read_literal, read_literal-escape}
use vignemale.Sqldb.Transaction.{TxOp, promised, transaction, transaction_ends}

quoted_text : escape (codes "a'b") ≡ codes "a''b"
unfolding escape
quoted_text = refl

read_literal-escape_example :
    read_literal (escape (codes "o'hara") ++ (quote ∷ codes ");"))
    ≡ some (codes "o'hara", codes ");")
read_literal-escape_example = read_literal-escape (codes "o'hara") (codes ");") refl

abbrev files : List (Text × Text)
files = (codes "1_a.sql", codes "A;") ∷ (codes "2_b.sql", codes "B") ∷ []

-- A database that knows two scripts besides the creation of the table, and refuses the rest.
abbrev toy_batch : Text → List Text → Text ⊎ List Text
toy_batch script names =
    if script == create_script
    then inr names
    else if script == migration_script (codes "1_a.sql") (codes "A;")
    then inr (names ++ (codes "1_a.sql" ∷ []))
    else if script == migration_script (codes "2_b.sql") (codes "B")
    then inr (names ++ (codes "2_b.sql" ∷ []))
    else inl (codes "syntax")

abbrev toy_database : Database
toy_database = record {
  State = List Text;
  batch = toy_batch;
  names = λ names. names;
  query_error = λ names. none;
}

toy-Records : Records toy_database files
unfolding migration_script escape strip_right list_beq
toy-Records = record { recorded = ((λ d d' h. cc), ((λ d d' h. cc), tt)); created = λ d d' h. cc }

run_once :
    migrate toy_database (some files) (codes "1_a.sql" ∷ [])
    ≡ (ok 1, codes "1_a.sql" ∷ codes "2_b.sql" ∷ [])
unfolding migrate run_files apply_files batch migration_script escape strip_right list_beq
run_once = refl

migrate-Recorded_example :
    Recorded
      (codes "1_a.sql" ∷ [])
      (pending (codes "1_a.sql" ∷ []) files)
      0
      (migrate toy_database (some files) (codes "1_a.sql" ∷ [])).0
      (migrate toy_database (some files) (codes "1_a.sql" ∷ [])).1
unfolding list_beq
migrate-Recorded_example =
    migrate-Recorded toy_database files (codes "1_a.sql" ∷ []) (codes "1_a.sql" ∷ []) toy-Records
      refl refl

migrate_twice_example :
    migrate toy_database (some files) (codes "1_a.sql" ∷ codes "2_b.sql" ∷ [])
    ≡ (ok 0, codes "1_a.sql" ∷ codes "2_b.sql" ∷ [])
unfolding list_beq
migrate_twice_example =
    migrate_twice toy_database files (codes "1_a.sql" ∷ []) (codes "1_a.sql" ∷ [])
      (codes "1_a.sql" ∷ codes "2_b.sql" ∷ []) (codes "1_a.sql" ∷ codes "2_b.sql" ∷ []) 1
      toy-Records refl refl run_once refl refl

-- The core fails at every commit and rollback.
abbrev broken : TxOp → Option Text
broken op = some (codes "connection lost")

abbrev block : ℕ → Result ℕ
block id = raise (value_error (codes "no such row"))

transaction_ends_example : transaction broken (inr 7) block ≡ promised broken 7 (block 7)
transaction_ends_example = transaction_ends broken 7 block
