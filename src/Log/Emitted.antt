-- ===== src/Log/Emitted.antt =====
-- Which records `vignemale/log.py` writes.
use vignemale.Log.{emit, levels, min_level}
use vignemale.Prelude.{
  Nodup, [], arith, false, ltb, nat_eq, opt_eq, or_else, pair_eq, refl, some, ℕ, ◌∙◌, ◌∷◌, ◌≡◌, ◌≤◌,
}
use vignemale.Prelude.Dict.{Dict, has_key, keys, lookup, lookup-update, update}
use vignemale.Prelude.Text.{Text, codes, text_eq, upper}
use vignemale.Python.{Value, ok, str}
use vignemale.Python.Env.{Env}

not_below : (a b : ℕ) → b ≤ a → ltb a b ≡ false
not_below a b h = ground arith

-- A record without a field `level` or `message`, whose level is not below the minimum, is written,
-- and each of its fields stands in the line with its value.
pub emit-written :
    (env : Env) (now level message : Text) (fields : Dict Text Value) (k : Text) (v : Value)
    → has_key (codes "level") fields ≡ false
    → has_key (codes "message") fields ≡ false
    → Nodup (keys fields)
    → lookup k fields ≡ some v
    → (min_level env ≤ or_else (lookup level levels) 0)
    → (line : Dict Text Value) × (emit env now level message fields ≡ ok (some line))
      × (lookup k line ≡ some v)
unfolding emit
emit-written env now level message fields k v a b distinct there enough =
    let low : ltb (or_else (lookup level levels) 0) (min_level env) ≡ false =
      not_below (or_else (lookup level levels) 0) (min_level env) enough in
    let header : Dict Text Value =
      (codes "timestamp", str now)
      ∷ (codes "level", str (upper level))
      ∷ (codes "target", str (codes "vignemale::app"))
      ∷ (codes "message", str message)
      ∷ [] in
    (
      update header fields,
      rw (a, b, low) refl,
      lookup-update k header fields distinct ∙ rw there refl,
    )
