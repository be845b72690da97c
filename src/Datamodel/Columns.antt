-- ===== src/Datamodel/Columns.antt =====
-- The columns of a table of `vignemale/datamodel.py`: annotations, types and personal data.
use vignemale.Prelude.{
  Bool, List, Option, [], false, if◌then◌else◌, list_beq, nat_eq, none, not, opt_eq, or_else,
  pair_eq, some, true, ◌++◌, ◌==◌, ◌||◌, ◌∷◌,
}
use vignemale.Prelude.Dict.{Dict, lookup}
use vignemale.Prelude.Text.{Text, codes, text_eq}
use vignemale.Python.{Result, ok, raise, type_error, ◌>>=◌}

-- A type, or a generic type by its origin: `list[str]` is `generic list`.
pub data Atom : Type 0 where
  plain_type generic : Text → Atom

-- A union holds types, and `None` as none.
pub data Annotation : Type 0 where
  atom : Atom → Annotation
  union : List (Option Atom) → Annotation

abbrev not_none : List (Option Atom) → List Atom
not_none [] = []
not_none (none ∷ args) = not_none args
not_none (some a ∷ args) = a ∷ not_none args

-- `_unwrap(annotation)`
unfoldable pub unwrap : Annotation → Annotation × Bool
unwrap (atom a) = (atom a, false)
unwrap (union args) = single (not_none args)
  where
    single : List Atom → Annotation × Bool
    single (a ∷ []) = (atom a, true)
    single _ = (union args, false)

abbrev logical_types : Dict Text Text
logical_types =
    (codes "int", codes "int")
    ∷ (codes "str", codes "str")
    ∷ (codes "bool", codes "bool")
    ∷ (codes "float", codes "float")
    ∷ (codes "datetime.datetime", codes "datetime")
    ∷ (codes "datetime.date", codes "date")
    ∷ (codes "dict", codes "json")
    ∷ (codes "list", codes "json")
    ∷ []

-- typing.get_origin(base) or base
abbrev origin : Annotation → Option Text
origin (atom (plain_type t)) = some t
origin (atom (generic t)) = some t
origin (union _) = none

-- `_logical_type(annotation)`; `shown` is the annotation's repr.
unfoldable pub logical_type : Text → Annotation → Result Text
unfolding unwrap list_beq
logical_type shown annotation = elim (origin (unwrap annotation).0) [
  | none ↦ raise (type_error (codes "unsupported column type: " ++ shown))
  | some base ↦ elim (lookup base logical_types) [
    | none ↦ raise (type_error (codes "unsupported column type: " ++ shown))
    | some logical ↦ ok logical
  ]
]

-- A field of the model; `pii` and `purpose` are those of its extra schema.
pub record Column : Type 0 where
  pub shown : Text
  pub annotation : Annotation
  pub required : Bool
  pub pii : Bool
  pub purpose : Option Text

pub record ColumnSpec : Type 0 where
  pub name : Text
  pub typ : Text
  pub nullable : Bool
  pub primary_key : Bool

-- The columns of `_schema()`.
unfoldable pub schema_columns : Dict Text Column → Result (List ColumnSpec)
unfolding logical_type unwrap list_beq
schema_columns [] = ok []
schema_columns ((name, f) ∷ rest) = do
  typ ← logical_type f.shown f.annotation
  specs ← schema_columns rest
  ok (
      record {
        name = name;
        typ = typ;
        nullable = (unwrap f.annotation).1 || not f.required;
        primary_key = name == codes "id";
      }
      ∷ specs)

-- `pii_fields()`: the purposes of the fields with personal data.
unfoldable pub pii_fields : Dict Text Column → Dict Text Text
pii_fields [] = []
pii_fields ((name, f) ∷ rest) =
    let fields = pii_fields rest in
    if f.pii then (name, or_else f.purpose (codes "unspecified")) ∷ fields else fields

-- A table class; `model_module` is its `__module__`.
pub record TableClass : Type 0 where
  pub model_module : Text
  pub model_name : Text
  pub tablename : Text
  pub database : Text
  pub subject : Text
  pub on_forget : Text
  pub columns : Dict Text Column
