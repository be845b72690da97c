-- ===== src/Datamodel/Query.antt =====
-- `sql()` of `vignemale/datamodel.py`: queries with named parameters. Pydantic's adapters are a
-- parameter.
pub mod Binding
pub mod Placeholders
pub mod Rendered
use vignemale.Api.Registry.{Kwargs}
use vignemale.Cli.Collect.Syntax.{positional}
use vignemale.Prelude.{
  Bool, List, [], contains, false, if◌then◌else◌, is_empty, keep, ltb, nat_eq, not, opt_eq, or_else,
  pair_eq, suc, true, ℕ, ◌&&◌, ◌++◌, ◌+◌, ◌==◌, ◌||◌, ◌∷◌,
}
use vignemale.Prelude.Dict.{Dict, has_key, keys, lookup, update}
use vignemale.Prelude.Text.{Text, codes, is_digit, is_lower, is_upper, join, print_nat, text_eq}
use vignemale.Python.{Exception, Result, Value, null, ok, raise, type_error, ◌>>=◌, ◌>>◌}

-- A query, cut at its named placeholders.
pub data Piece : Type 0 where
  plain : ℕ → Piece
  named : Text → Piece

-- Where a scan for `\$([a-zA-Z_][a-zA-Z0-9_]*)` stands: outside, behind a dollar, or in a name.
pub data Scan : Type 0 where
  outside dollar : Scan
  inside : Text → Scan

abbrev dollar_sign : ℕ
dollar_sign = b'$'

abbrev pub name_start : ℕ → Bool
name_start c = is_lower c || is_upper c || (c == b'_')

abbrev pub name_char : ℕ → Bool
name_char c = name_start c || is_digit c

-- What a character ends that is in no name.
abbrev pub close : Scan → List Piece
close outside = []
close dollar = plain dollar_sign ∷ []
close (inside n) = named n ∷ []

-- How the scan goes on with a character: what is closed, and the next state.
abbrev pub outer_step : Scan → ℕ → List Piece × Scan
outer_step st c =
    if c == dollar_sign then (close st, dollar) else (close st ++ (plain c ∷ []), outside)

unfoldable pub scan_step : Scan → ℕ → List Piece × Scan
scan_step outside c = outer_step outside c
scan_step dollar c = if name_start c then ([], inside (c ∷ [])) else outer_step dollar c
scan_step (inside n) c =
    if name_char c then ([], inside (n ++ (c ∷ []))) else outer_step (inside n) c

unfoldable pub scan : Scan → Text → List Piece
unfolding scan_step
scan st [] = close st
scan st (c ∷ s) = let (closed, next) = scan_step st c in closed ++ scan next s

-- The names that `re.findall` gives.
unfoldable pub names_of : List Piece → List Text
names_of [] = []
names_of (plain c ∷ ps) = names_of ps
names_of (named n ∷ ps) = n ∷ names_of ps

-- order.index(n), for a name that is there
unfoldable pub index_of : Text → List Text → ℕ
index_of n [] = 0
index_of n (m ∷ ms) = let rest = index_of n ms in if m == n then 0 else suc rest

unfoldable pub render : List Text → List Piece → Text
unfolding index_of
render order [] = []
render order (plain c ∷ ps) = c ∷ render order ps
render order (named n ∷ ps) = dollar_sign ∷ print_nat (index_of n order + 1) ++ render order ps

abbrev insert_text : Text → List Text → List Text
insert_text t [] = t ∷ []
insert_text t (u ∷ us) =
    let rest = insert_text t us in
    if t == u then u ∷ us else if before t u then t ∷ u ∷ us else u ∷ rest
  where
    before : Text → Text → Bool
    before [] _ = true
    before (_ ∷ _) [] = false
    before (c ∷ s) (d ∷ t) = let rest = before s t in ltb c d || ((c == d) && rest)

-- sorted(set(names))
unfoldable pub sorted_set : List Text → List Text
sorted_set [] = []
sorted_set (t ∷ ts) = insert_text t (sorted_set ts)

abbrev listed : Text → List Text → Exception
listed message names = type_error (message ++ join (codes ", ") (sorted_set names))

-- The names of the first list that are not in the second.
unfoldable pub minus : List Text → List Text → List Text
minus names others = keep (λ n. not (contains n others)) names

-- The checks of `sql(query, **param_types)` and the compiled query.
unfoldable pub compile : List Text → Text → Result Text
unfolding scan names_of minus sorted_set render
compile order query =
    let pieces = scan outside query in
    let used = names_of pieces in
    if not (is_empty (minus used order))
    then raise (listed (codes "sql(): parameter(s) not declared in the query: ") (minus used order))
    else if not (is_empty (minus order used))
    then raise (
        listed (codes "sql(): parameter(s) declared but absent from the query: ")
          (minus order used))
    else ok (render order pieces)

-- dict(zip(order, args))
unfoldable pub zip : List Text → List Value → Dict Text Value
zip [] args = []
zip (n ∷ order) [] = []
zip (n ∷ order) (v ∷ args) = (n, v) ∷ zip order args

-- The values of a call, by name, or the error of its arguments.
unfoldable pub arguments : List Text → List Value → Kwargs → Result Kwargs
unfolding zip minus sorted_set update
arguments order args kwargs =
    let positional = zip order args in
    let overlap = keep (λ n. has_key n kwargs) (keys positional) in
    let values = update positional kwargs in
    let extra = minus (keys values) order in
    let missing = keep (λ n. not (has_key n values)) order in
    if not (is_empty overlap)
    then raise (listed (codes "duplicate parameter(s): ") overlap)
    else if not (is_empty extra)
    then raise (listed (codes "unknown parameter(s): ") extra)
    else if not (is_empty missing)
    then raise (type_error (codes "missing parameter(s): " ++ join (codes ", ") missing))
    else ok values

module _ (adapt : Text → Value → Result Value) where
  -- [adapters[n].validate_python(values[n]) for n in order]
  unfoldable pub bind : List Text → Kwargs → Result (List Value)
  bind [] values = ok []
  bind (n ∷ order) values = do
    v ← adapt n (or_else (lookup n values) null)
    vs ← bind order values
    ok (v ∷ vs)

  -- The list that `run(cls, *args, **kwargs)` hands to the database.
  unfoldable pub bound_values : List Text → List Value → Kwargs → Result (List Value)
  unfolding arguments bind
  bound_values order args kwargs = do values ← arguments order args kwargs; bind order values
