-- ===== src/Python/Env.antt =====
-- `os.environ`, and the variable names that the program derives from a declared name.
use vignemale.Prelude.{Option, [], nat_eq, none, opt_eq, pair_eq, some, ◌∷◌}
use vignemale.Prelude.Dict.{Dict, lookup}
use vignemale.Prelude.Text.{Text, replace_char, text_eq, upper}

abbrev pub Env : Type 0
Env = Dict Text Text

-- `os.environ.get(key)` where the program tests the value for truth: an empty text counts as unset.
unfoldable pub get_env : Text → Env → Option Text
get_env key env = truthy (lookup key env)
  where
    truthy : Option Text → Option Text
    truthy none = none
    truthy (some []) = none
    truthy (some (c ∷ s)) = some (c ∷ s)

-- name.upper().replace('-', '_')
unfoldable pub env_suffix : Text → Text
unfolding replace_char upper
env_suffix name = replace_char b'-' b'_' (upper name)
