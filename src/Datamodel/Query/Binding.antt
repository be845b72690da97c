-- ===== src/Datamodel/Query/Binding.antt =====
-- Which value a placeholder of a compiled query stands for.
use mathlib.Core.Bool.{false≢true}
use mathlib.Core.Path.{subst}
use vignemale.Api.Registry.{Kwargs}
use vignemale.Datamodel.Query.{arguments, bind, bound_values, index_of, minus, zip}
use vignemale.Prelude.{
  Bool, Bool-cases, List, Nodup, Option, Option-cases, [], ap, arith, contains, false, get_elem?,
  inl, inr, is_empty, keep, length, nat_eq, none, not, opt_eq, or_else, pair_eq, refl, some, suc,
  sym, true, ◌&&◌, ◌++◌, ◌==◌, ◌∙◌, ◌∷◌, ◌≡◌,
}
use vignemale.Prelude.Dict.{contains-keys, has_key, keys, lookup, lookup-update, update}
use vignemale.Prelude.Text.{Text, text_eq}
use vignemale.Python.{Result, Value, bind-ok, null, ok, ok-injective, raise-ne-ok}

module _ (adapt : Text → Value → Result Value) where
  bind-get_elem? :
      (order : List Text) (values : Kwargs) (vs : List Value) (n : Text)
      → bind adapt order values ≡ ok vs
      → contains n order ≡ true
      → (v : Value) × (get_elem? vs (index_of n order) ≡ some v)
        × (adapt n (or_else (lookup n values) null) ≡ ok v)
  unfolding bind index_of
  bind-get_elem? [] values vs n h there = absurd (false≢true there)
  bind-get_elem? (m ∷ order) values vs n h there =
      let (v, first, rest) = bind-ok (adapt m (or_else (lookup m values) null)) h in
      let (us, tail, made) = bind-ok (bind adapt order values) rest in
      elim (Bool-cases (m == n)) [
        | inl same ↦ (
          v,
          rw same (subst (λ xs. get_elem? xs 0 ≡ some v) (ok-injective made) refl),
          subst (λ k. adapt k (or_else (lookup k values) null) ≡ ok v)
              ((text_eq.beq_iff m n).0 same) first,
        )
        | inr differ ↦
            let (w, at, adapted) = bind-get_elem? order values us n tail (ground arith) in
            (
              w,
              rw differ (
                  subst (λ xs. get_elem? xs (suc (index_of n order)) ≡ some w) (ok-injective made)
                    at),
              adapted,
            )
      ]

zip_surplus :
    (order : List Text) (args extra : List Value)
    → length args ≡ length order
    → zip order (args ++ extra) ≡ zip order args
unfolding zip
zip_surplus [] args extra h = refl
zip_surplus (n ∷ order) [] extra h = absurd (omega arith)
zip_surplus (n ∷ order) (v ∷ args) extra h =
    ap (λ d. (n, v) ∷ d) (zip_surplus order args extra (omega arith))

-- Positional arguments beyond the declared parameters are dropped without an error: the call does
-- what it does without them.
pub bound_values_surplus :
    (adapt : Text → Value → Result Value) (order : List Text) (args extra : List Value)
    (kwargs : Kwargs)
    → length args ≡ length order
    → bound_values adapt order (args ++ extra) kwargs ≡ bound_values adapt order args kwargs
unfolding bound_values arguments
bound_values_surplus adapt order args extra kwargs h = rw (zip_surplus order args extra h) refl

-- No positional argument is passed twice, no argument is unknown, none is missing.
record Accepted (order : List Text) (args : List Value) (kwargs values : Kwargs) : Type 0 where
  merged : update (zip order args) kwargs ≡ values
  distinct : is_empty (keep (λ n. has_key n kwargs) (keys (zip order args))) ≡ true
  complete : is_empty (keep (λ n. not (has_key n values)) order) ≡ true

arguments-Accepted :
    (order : List Text) (args : List Value) (kwargs values : Kwargs)
    → arguments order args kwargs ≡ ok values
    → Accepted order args kwargs values
unfolding arguments
arguments-Accepted order args kwargs values h =
    let positional = zip order args in
    let values' = update positional kwargs in
    let overlap = keep (λ n. has_key n kwargs) (keys positional) in
    let extra = minus (keys values') order in
    let missing = keep (λ n. not (has_key n values')) order in
    elim (Bool-cases (is_empty overlap)) [
      | inr twice ↦ absurd (raise-ne-ok (rw (twice, arguments) at h))
      | inl distinct ↦ elim (Bool-cases (is_empty extra)) [
        | inr unknown_name ↦ absurd (raise-ne-ok (rw (distinct, unknown_name, arguments) at h))
        | inl known ↦ elim (Bool-cases (is_empty missing)) [
          | inr lacking ↦ absurd (raise-ne-ok (rw (distinct, known, lacking, arguments) at h))
          | inl complete ↦
              let merged : values' ≡ values =
                ok-injective (rw (distinct, known, complete, arguments) at h) in
              record {
                merged = merged;
                distinct = distinct;
                complete =
                    subst (λ vs. is_empty (keep (λ n. not (has_key n vs)) order) ≡ true) merged
                      complete;
              }
        ]
      ]
    ]

-- Of a parameter that is passed, by position or by name, but not both: the value that is passed.
abbrev pub passed : List Text → List Value → Kwargs → Text → Option Value
passed order args kwargs n = elim (lookup n kwargs) [
  | none ↦ lookup n (zip order args)
  | some v ↦ some v
]

keep_none :
    (p : Text → Bool) (names : List Text) (n : Text)
    → is_empty (keep p names) ≡ true
    → contains n names ≡ true
    → p n ≡ false
keep_none p [] n h there = absurd (false≢true there)
keep_none p (m ∷ names) n h there =
    ground (arith, keep_none p names n, text_eq.beq_iff m n, text_eq.beq_iff n m, moved)
  where
    moved : m ≡ n → p m ≡ p n
    moved e = ap p e

-- If a call of a query with named parameters gets as far as the database, then each declared
-- parameter was passed exactly once, by position or by name, and the value at the position of its
-- placeholder is what Pydantic made of the one that was passed.
pub bound_values-passed :
    (adapt : Text → Value → Result Value) (order : List Text) (args : List Value) (kwargs : Kwargs)
    (vs : List Value) (n : Text)
    → Nodup (keys kwargs)
    → bound_values adapt order args kwargs ≡ ok vs
    → contains n order ≡ true
    → (w : Value) × (v : Value) × (passed order args kwargs n ≡ some w)
      × (adapt n w ≡ ok v)
      × (get_elem? vs (index_of n order) ≡ some v)
      × ((has_key n kwargs && has_key n (zip order args)) ≡ false)
unfolding bound_values
bound_values-passed adapt order args kwargs vs n distinct_names h there =
    let (values, taken, run) = bind-ok (arguments order args kwargs) h in
    let a = arguments-Accepted order args kwargs values taken in
    let (v, at, adapted) = bind-get_elem? adapt order values vs n run there in
    let merged_n =
      ap (λ d. lookup n d) (sym a.merged)
      ∙ lookup-update n (zip order args) kwargs distinct_names in
    let given : not (has_key n values) ≡ false =
      keep_none (λ k. not (has_key k values)) order n a.complete there in
    elim (Option-cases (lookup n values)) [
      | inl absent ↦ absurd (false≢true (sym (rw absent at given)))
      | inr (w, found) ↦ (
        w,
        v,
        sym merged_n ∙ found,
        subst (λ o. adapt n (or_else o null) ≡ ok v) found adapted,
        at,
        ground (
          arith,
          keep_none (λ k. has_key k kwargs) (keys (zip order args)) n a.distinct,
          contains-keys n (zip order args),
        ),
      )
    ]
