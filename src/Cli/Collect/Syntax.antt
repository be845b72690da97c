-- ===== src/Cli/Collect/Syntax.antt =====
-- What griffe gives `vignemale_cli/collect.py` of a module: members with their kinds. An expression
-- is its text with the value that `ast.literal_eval` gives, if it gives one.
use vignemale.Prelude.{
  Bool, List, Option, [], list_beq, nat_eq, none, opt_eq, or_else, pair_eq, some, ◌==◌, ◌||◌, ◌∷◌,
}
use vignemale.Prelude.Dict.{Dict}
use vignemale.Prelude.Text.{Text, ends_with, text_eq}
use vignemale.Python.{Value, null, str}

pub record Expr : Type 0 where
  pub source : Text
  pub literal : Option Value

-- `keyword n e` is an `ExprKeyword`.
pub data Argument : Type 0 where
  positional : Expr → Argument
  keyword : Text → Expr → Argument

-- An `ExprCall`.
pub record Call : Type 0 where
  pub function : Text
  pub arguments : List Argument

-- A member of a class body.
pub record Attribute : Type 0 where
  pub is_attribute : Bool
  pub annotation : Option Text
  pub value : Option Expr

pub record Class : Type 0 where
  pub bases : List Text
  pub members : List (Text × Attribute)

-- `bare` is a decorator without parentheses.
pub data Decorator : Type 0 where
  call : Call → Decorator
  bare : Text → Decorator

pub record FunctionInfo : Type 0 where
  pub decorators : List Decorator
  pub params : List (Text × Option Text)
  pub returns : Option Text

-- `attribute none` is one whose value is missing or no call. A submodule has its `path`.
mutual
  pub data Member : Type 0 where
    submodule : Text → Members → Member
    class : Class → Member
    attribute : Option Call → Member
    function : FunctionInfo → Member
    unknown : Member

  pub data Members : Type 0 where
    done : Members
    member : Text → Member → Members → Members

-- `_lit(expr)`
unfoldable pub lit : Option Expr → Value
lit none = null
lit (some e) = or_else e.literal (str e.source)

abbrev pub as_text : Value → Option Text
as_text (str s) = some s
as_text _ = none

-- A declared name that counts as true: a text that is not empty.
unfoldable pub name_of : Value → Option Text
name_of (str (c ∷ s)) = some (c ∷ s)
name_of _ = none

-- The first positional argument, or `None`.
unfoldable pub first_arg : List Argument → Value
unfolding lit
first_arg [] = null
first_arg (positional e ∷ _) = lit (some e)
first_arg (keyword _ _ ∷ rest) = first_arg rest

-- {a.name: _lit(a.value) for the keyword arguments}
unfoldable pub keywords : List Argument → Dict Text Value
unfolding lit
keywords [] = []
keywords (positional _ ∷ rest) = keywords rest
keywords (keyword n e ∷ rest) = (n, lit (some e)) ∷ keywords rest

-- fn == name or fn.endswith("." + name)
unfoldable pub calls : Text → Text → Bool
unfolding ends_with list_beq
calls name fn = (fn == name) || ends_with fn (b'.' ∷ name)
