-- ===== src/Gdpr.antt =====
-- `vignemale/gdpr.py`: the map, the export and the erasure of personal data. The rows of the tables
-- are behind an interface, the operations of `vignemale/datamodel.py` that the code calls.
pub mod Forget
use mathlib.Core.List.{reverse}
use vignemale.Cli.Gen.{annotation}
use vignemale.Datamodel.Columns.{
  Annotation, Column, TableClass, atom, pii_fields, plain_type, unwrap,
}
use vignemale.Prelude.{
  Bool, List, Option, [], false, if◌then◌else◌, is_empty, keep, list_beq, map, nat_eq, none, not,
  opt_eq, pair_eq, some, true, ℕ, ◌++◌, ◌==◌, ◌∷◌,
}
use vignemale.Prelude.Dict.{Dict, insert}
use vignemale.Prelude.Text.{Text, codes, text_eq}
use vignemale.Python.{Result, Value, null, ok, raise, str}

-- `count`, `find`, `delete_where` and `update_where` with one criterion, a column and its value. An
-- operation may raise.
pub record Rows : Type 1 where
  pub State : Type 0
  pub count : TableClass → Text × Value → State → Result ℕ × State
  pub find : TableClass → Text × Value → State → Result (List Value) × State
  pub delete_where : TableClass → Text × Value → State → Result (Unit {0}) × State
  pub update_where : TableClass → Dict Text Value → Text × Value → State → Result (Unit {0}) × State

-- One field of the map.
pub record FieldEntry : Type 0 where
  pub name : Text
  pub typ : Text
  pub pii : Bool
  pub purpose : Option Text

-- One table of the map.
pub record TableEntry : Type 0 where
  pub table : Text
  pub database : Text
  pub model : Text
  pub subject : Option Text
  pub on_forget : Option Text
  pub fields : List FieldEntry

unfoldable pub field_entries : Dict Text Column → List FieldEntry
field_entries [] = []
field_entries ((name, f) ∷ rest) =
    record { name = name; typ = f.shown; pii = f.pii; purpose = if f.pii then f.purpose else none }
    ∷ field_entries rest

-- `data_map()`
unfoldable pub data_map : List TableClass → List TableEntry
unfolding field_entries
data_map [] = []
data_map (t ∷ tables) =
    record {
      table = t.tablename;
      database = t.database;
      model = t.model_module ++ (b'.' ∷ t.model_name);
      subject = if is_empty t.subject then none else some t.subject;
      on_forget = if is_empty t.subject then none else some t.on_forget;
      fields = field_entries t.columns;
    }
    ∷ data_map tables

-- `_subject_tables()`
unfoldable pub subject_tables : List TableClass → List TableClass
subject_tables tables = keep (λ t. not (is_empty t.subject)) tables

-- "[redacted]" for a text, `None` for the rest
unfoldable pub redacted : Annotation → Value
unfolding unwrap list_beq
redacted annotation = of_base (unwrap annotation).0
  where
    of_base : Annotation → Value
    of_base (atom (plain_type t)) = if t == codes "str" then str (codes "[redacted]") else null
    of_base _ = null

-- The new values of `_anonymize`: of each field of `pii_fields()`.
unfoldable pub redactions : Dict Text Column → Dict Text Value
unfolding redacted
redactions [] = []
redactions ((name, f) ∷ rest) =
    let values = redactions rest in if f.pii then (name, redacted f.annotation) ∷ values else values

-- One entry of the report of `forget_subject`.
pub record Report : Type 0 where
  pub rows : ℕ
  pub action : Text
  pub dry_run : Bool

module _ (R : Rows) where
  -- An operation, and what follows if it returns.
  abbrev pub after :
      {A B : Type 0} → Result A × R.State → (A → R.State → Result B × R.State) → Result B × R.State
  after (ok a, s) next = next a s
  after (raise e, s) next = (raise e, s)

  abbrev by_subject : TableClass → Value → Text × Value
  by_subject t id = (t.subject, id)

  -- The loop of `export_subject`.
  unfoldable pub export_tables :
      (Value → Value)
      → List TableClass
      → Value
      → Dict Text (List Value)
      → R.State
      → Result (Dict Text (List Value)) × R.State
  unfolding insert list_beq
  export_tables dump [] id out s = (ok out, s)
  export_tables dump (t ∷ tables) id out s = after (R.find t (by_subject t id) s) (λ rows s'.
      export_tables dump tables id
        (if is_empty rows then out else insert t.tablename (map dump rows) out) s')

  -- `export_subject(subject_id)`; `dump` is `model_dump`.
  unfoldable pub export_subject :
      (Value → Value)
      → List TableClass
      → Value
      → R.State
      → Result (Dict Text (List Value)) × R.State
  unfolding export_tables subject_tables
  export_subject dump tables id s = export_tables dump (subject_tables tables) id [] s

  -- `_anonymize(t, where)`
  unfoldable pub anonymize : TableClass → Text × Value → R.State → Result (Unit {0}) × R.State
  unfolding redactions pii_fields
  anonymize t criterion s =
      if is_empty (pii_fields t.columns)
      then (ok tt, s)
      else R.update_where t (redactions t.columns) criterion s

  unfoldable pub erase_rows : TableClass → Value → Bool → R.State → Result (Unit {0}) × R.State
  unfolding anonymize list_beq
  erase_rows t id true s = (ok tt, s)
  erase_rows t id false s =
      if t.on_forget == codes "anonymize"
      then anonymize t (by_subject t id) s
      else R.delete_where t (by_subject t id) s

  -- One turn of the loop of `forget_subject`: the report that it leaves.
  unfoldable pub forget_table :
      TableClass → Value → Bool → Dict Text Report → R.State → Result (Dict Text Report) × R.State
  unfolding erase_rows insert list_beq
  forget_table t id dry_run report s = after (R.count t (by_subject t id) s) (λ n s1.
      if n == 0
      then (ok report, s1)
      else after (erase_rows t id dry_run s1) (λ _ s2. (
        ok (
            insert t.tablename (record { rows = n; action = t.on_forget; dry_run = dry_run })
              report),
        s2,
      )))

  unfoldable pub forget_tables :
      List TableClass
      → Value
      → Bool
      → Dict Text Report
      → R.State
      → Result (Dict Text Report) × R.State
  unfolding forget_table
  forget_tables [] id dry_run report s = (ok report, s)
  forget_tables (t ∷ tables) id dry_run report s =
      after (forget_table t id dry_run report s) (forget_tables tables id dry_run)

  -- `forget_subject(subject_id, dry_run)`
  unfoldable pub forget_subject :
      List TableClass → Value → Bool → R.State → Result (Dict Text Report) × R.State
  unfolding forget_tables subject_tables
  forget_subject tables id dry_run s =
      forget_tables (reverse (subject_tables tables)) id dry_run [] s
