-- ===== src/Log.antt =====
-- `vignemale/log.py`: one JSON line for each record. Time and JSON are parameters of the printing,
-- which is left out: the fields of the line are what is modelled.
pub mod Emitted
use vignemale.Prelude.{
  Option, [], if◌then◌else◌, list_beq, ltb, nat_eq, none, opt_eq, or_else, pair_eq, some, ℕ, ◌||◌,
  ◌∷◌,
}
use vignemale.Prelude.Dict.{Dict, has_key, insert, lookup, update}
use vignemale.Prelude.Text.{Text, codes, lower, text_eq, upper}
use vignemale.Python.{Result, Value, ok, raise, str, type_error}
use vignemale.Python.Env.{Env}

abbrev pub levels : Dict Text ℕ
levels = (codes "debug", 10) ∷ (codes "info", 20) ∷ (codes "warn", 30) ∷ (codes "error", 40) ∷ []

-- `_min_level()`
unfoldable pub min_level : Env → ℕ
unfolding lower list_beq
min_level env =
    or_else (lookup (lower (or_else (lookup (codes "VIGNEMALE_LOG") env) (codes "info"))) levels) 20

-- `_emit(level, message, **fields)`: the fields of the line, if one is written.
unfoldable pub emit : Env → Text → Text → Text → Dict Text Value → Result (Option (Dict Text Value))
unfolding min_level upper insert update list_beq
emit env now level message fields =
    if has_key (codes "level") fields || has_key (codes "message") fields
    then raise (type_error (codes "_emit() got multiple values for argument"))
    else if ltb (or_else (lookup level levels) 0) (min_level env)
    then ok none
    else ok (
        some (
          update
            ((codes "timestamp", str now)
              ∷ (codes "level", str (upper level))
              ∷ (codes "target", str (codes "vignemale::app"))
              ∷ (codes "message", str message)
              ∷ [])
            fields))

-- debug, info, warn and error
unfoldable pub debug : Env → Text → Text → Dict Text Value → Result (Option (Dict Text Value))
unfolding emit
debug env now message fields = emit env now (codes "debug") message fields

unfoldable pub info : Env → Text → Text → Dict Text Value → Result (Option (Dict Text Value))
unfolding emit
info env now message fields = emit env now (codes "info") message fields

unfoldable pub warn : Env → Text → Text → Dict Text Value → Result (Option (Dict Text Value))
unfolding emit
warn env now message fields = emit env now (codes "warn") message fields

unfoldable pub error : Env → Text → Text → Dict Text Value → Result (Option (Dict Text Value))
unfolding emit
error env now message fields = emit env now (codes "error") message fields
