-- ===== src/Cli/Link.antt =====
-- `vignemale_cli/link.py`: the name of a project, and the edit of `pyproject.toml`.
pub mod Slug
pub mod Again
pub mod Lines
pub mod Linked
pub mod Plain
pub mod Twice
use vignemale.Cli.Files.{Files}
use vignemale.Cli.Init.Templates.{pyproject}
use vignemale.Prelude.{
  Bool, List, Option, [], false, if◌then◌else◌, is_empty, list_beq, nat_eq, none, not, opt_eq,
  or_else, pair_eq, some, take, true, ℕ, ◌&&◌, ◌++◌, ◌==◌, ◌||◌, ◌∷◌,
}
use vignemale.Prelude.Text.{
  Text, codes, drop_while, ends_with, is_digit, is_lower, is_space, join, lower, split, starts_with,
  strip_both, text_eq,
}
use vignemale.Python.{Result, and_then, ok}
use vignemale.Python.Path.{join_path}

-- re.sub(r"[^a-z0-9]+", "-", s); the flag says that a run of other characters is open.
unfoldable pub dashed : Bool → Text → Text
dashed open_run [] = []
dashed open_run (c ∷ s) = elim (is_lower c || is_digit c) [
  | true ↦ c ∷ dashed false s
  | false ↦ elim open_run [ true ↦ dashed true s | false ↦ b'-' ∷ dashed true s ]
]

-- `_slug(name)`
unfoldable pub slug : Text → Text
unfolding dashed lower strip_both
slug name = take 48 (strip_both (λ c. c == b'-') (dashed false (strip_both is_space (lower name))))

abbrev pub drop_last_empty : List Text → List Text
drop_last_empty [] = []
drop_last_empty ([] ∷ []) = []
drop_last_empty (l ∷ ls) = l ∷ drop_last_empty ls

-- The characters other than \n that end a line for `splitlines`: \v, \f, \r, \x1c, \x1d, \x1e, \x85,
-- U+2028 and U+2029.
unfoldable pub is_other_break : ℕ → Bool
is_other_break c =
    (c == 11)
    || (c == 12)
    || (c == 13)
    || (c == 28)
    || (c == 29)
    || (c == 30)
    || (c == 133)
    || (c == 8232)
    || (c == 8233)

-- Every line break as \n; \r\n is one.
unfoldable pub unify_breaks : Text → Text
unify_breaks [] = []
unify_breaks (c ∷ s) =
    let rest = unify_breaks s in
    if (c == 13) && starts_newline s then rest else (if is_other_break c then b'\n' else c) ∷ rest
  where
    starts_newline : Text → Bool
    starts_newline [] = false
    starts_newline (d ∷ _) = d == b'\n'

-- text.split("\n"), less an empty last line
unfoldable pub newline_lines : Text → List Text
unfolding split
newline_lines text = drop_last_empty (split b'\n' text)

-- text.splitlines()
unfoldable pub lines : Text → List Text
unfolding newline_lines unify_breaks
lines text = newline_lines (unify_breaks text)

abbrev pub section : Text
section = codes "[tool.vignemale]"

-- ln.strip() == "[tool.vignemale]"
unfoldable pub opens_section : Text → Bool
unfolding strip_both list_beq
opens_section ln = strip_both is_space ln == section

-- re.match(r"\s*\[", ln)
unfoldable pub opens_table : Text → Bool
unfolding drop_while starts_with
opens_table ln = starts_with (drop_while is_space ln) (codes "[")

-- re.match(r"\s*app\s*=", ln)
unfoldable pub sets_app : Text → Bool
unfolding drop_while starts_with
sets_app ln = after_app (drop_while is_space ln)
  where
    after_app : Text → Bool
    after_app (c ∷ d ∷ e ∷ s) =
        (c ∷ d ∷ e ∷ []) == codes "app" && starts_with (drop_while is_space s) (codes "=")
    after_app _ = false

-- The lines of the section behind its header, with the first that sets the name replaced; none if
-- no line before the next table does.
unfoldable pub replace_app : Text → List Text → Option (List Text)
unfolding opens_table sets_app
replace_app line [] = none
replace_app line (l ∷ ls) = elim (opens_table l) [
  | true ↦ none
  | false ↦ elim (sets_app l) [
    | true ↦ some (line ∷ ls)
    | false ↦ elim (replace_app line ls) [ none ↦ none | some ls' ↦ some (l ∷ ls') ]
  ]
]

-- The lines with the name set in the first section of the name, if there is one.
unfoldable pub set_app : Text → List Text → Option (List Text)
unfolding opens_section replace_app
set_app line [] = none
set_app line (l ∷ ls) = elim (opens_section l) [
  | true ↦ some (l ∷ or_else (replace_app line ls) (line ∷ ls))
  | false ↦ elim (set_app line ls) [ none ↦ none | some ls' ↦ some (l ∷ ls') ]
]

abbrev pub newline : Text
newline = codes "\n"

-- The text of `_apply(text, app)`, from the lines of the text.
unfoldable pub apply_lines : List Text → Text → Text → Text
unfolding set_app ends_with join
apply_lines ls text app =
    let line = codes "app = \"" ++ app ++ codes "\"" in
    let ends = ends_with text newline in
    elim (set_app line ls) [
      | some ls' ↦ join newline ls' ++ (if ends then newline else [])
      | none ↦
          let prefix = if ends || is_empty text then text else text ++ newline in
          let sep =
            if not (is_empty prefix) && not (ends_with prefix (codes "\n\n"))
            then newline
            else [] in
          prefix ++ sep ++ section ++ newline ++ line ++ newline
    ]

-- `_apply(text, app)`
unfoldable pub apply_link : Text → Text → Text
unfolding lines apply_lines
apply_link text app = apply_lines (lines text) text app

-- `link(name, path)`: the exit code. The messages are left out.
unfoldable pub link : (F : Files) → Text → Text → F.State → Result ℕ × F.State
unfolding slug apply_link join_path
link F name path s =
    let app = slug name in
    let pyproject = join_path path (codes "pyproject.toml") in
    let text = if F.is_file pyproject s then or_else (F.content pyproject s) [] else [] in
    if is_empty app
    then (ok 1, s)
    else and_then (F.write pyproject (apply_link text app) s) (λ _ s'. (ok 0, s'))
