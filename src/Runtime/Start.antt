-- ===== src/Runtime/Start.antt =====
-- `main` of `vignemale/__main__.py`: the arguments and the role of the container.
use vignemale.Api.Serving.{parse_int}
use vignemale.Prelude.{
  List, Option, [], if◌then◌else◌, list_beq, ltb, nat_eq, none, opt_eq, or_else, pair_eq, some, ℕ,
  ◌==◌, ◌∷◌,
}
use vignemale.Prelude.Dict.{lookup}
use vignemale.Prelude.Text.{Text, codes, text_eq}
use vignemale.Python.{Result, negsuc, ok, pos, raise, system_exit, value_error, ℤ}
use vignemale.Python.Env.{Env}

abbrev first_of : Option Text → Text → Option Text
first_of none a = some a
first_of (some p) a = some p

-- The loop over `argv`: the address and the path.
unfoldable pub parse_args : List Text → Text → Option Text → Text × Option Text
unfolding list_beq
parse_args [] addr path = (addr, path)
parse_args (a ∷ []) addr path = (addr, first_of path a)
parse_args (a ∷ b ∷ rest) addr path =
    let with_addr = parse_args rest b path in
    let next = parse_args (b ∷ rest) addr (first_of path a) in
    if a == codes "--addr" then with_addr else next

-- What the container becomes.
pub data Role : Type 0 where
  gateway_at : Text → Text → Role
  workers_at : Text → Text → ℕ → Role
  single_at : Text → Text → Role

abbrev of_workers : Text → Text → Option ℤ → Result Role
of_workers path addr none = raise (value_error (codes "invalid literal for int() with base 10"))
of_workers path addr (some (negsuc n)) = ok (single_at path addr)
of_workers path addr (some (pos n)) =
    if ltb 1 n then ok (workers_at path addr n) else ok (single_at path addr)

unfoldable pub main : Env → List Text → Result Role
unfolding parse_args parse_int list_beq
main env argv =
    let default = or_else (lookup (codes "VIGNEMALE_ADDR") env) (codes "0.0.0.0:8080") in
    let (addr, path) = parse_args argv default none in
    elim path [
      | none ↦
          raise
            (system_exit (codes "usage: python -m vignemale <file|directory> [--addr host:port]"))
      | some p ↦
          if or_else (lookup (codes "VIGNEMALE_ROLE") env) [] == codes "gateway"
          then ok (gateway_at p addr)
          else of_workers p addr
              (parse_int (or_else (lookup (codes "VIGNEMALE_WORKERS") env) (codes "1")))
    ]
