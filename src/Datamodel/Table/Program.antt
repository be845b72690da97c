-- ===== src/Datamodel/Table/Program.antt =====
-- What `_raw_op` asks of the core, and the operations of a program: the code, and the reference that
-- creates the table before every operation.
use vignemale.Cli.Collect.Syntax.{calls}
use vignemale.Datamodel.Columns.{TableClass}
use vignemale.Datamodel.Table.{
  Core, Request, TableSpec, Tables, address, ask, ensure_request, reply, run_op, schema,
}
use vignemale.Prelude.{List, [], ap, inl, inr, nat_eq, opt_eq, pair_eq, refl, ◌∷◌, ◌≡◌, ◌⊎◌}
use vignemale.Prelude.Text.{Text, text_eq}
use vignemale.Python.{
  Exception, Result, Result-cases, Value, and_then, ok, ok-injective, raise, raise-ne-ok,
}
use vignemale.Python.Env.{Env}

-- A call of an operation.
abbrev pub TableCall : Type 0
TableCall = TableClass × Request

module _ (C : Core) (env : Env) where
  -- The reference: the table is created before every operation.
  unfoldable pub ask_always : TableClass → Request → C.State → Result Value × C.State
  unfolding ask
  ask_always t q c = and_then (ask C env t ensure_request c) (λ _ c'. ask C env t q c')

  unfoldable pub run_always : List TableCall → C.State → List (Result Value) × C.State
  unfolding ask_always
  run_always [] c = ([], c)
  run_always ((t, q) ∷ calls) c =
      let (r, c1) = ask_always t q c in let (rs, c2) = run_always calls c1 in (r ∷ rs, c2)

  -- The code.
  unfoldable pub run_calls : List TableCall → Tables C → List (Result Value) × Tables C
  unfolding run_op
  run_calls [] s = ([], s)
  run_calls ((t, q) ∷ calls) s =
      let (r, s1) = run_op C env t q s in let (rs, s2) = run_calls calls s1 in (r ∷ rs, s2)

  -- Either the class has a database and a schema, and the core is asked, or the same exception is
  -- raised whatever the request.
  pub ask-cases :
      (t : TableClass)
      → ((url : Text) × (spec : TableSpec) × (address env t ≡ ok url)
          × (schema t ≡ ok spec)
          × ((q : Request) (c : C.State) → ask C env t q c ≡ reply (C.orm url spec q c)))
        ⊎ ((e : Exception) × ((q : Request) (c : C.State) → ask C env t q c ≡ (raise e, c)))
  unfolding ask
  ask-cases t = elim (Result-cases (address env t)) [
    | inr (e, a) ↦ inr (e, λ q c. rw (a, ask))
    | inl (url, a) ↦ elim (Result-cases (schema t)) [
      | inr (e, b) ↦ inr (e, λ q c. rw (a, b, ask))
      | inl (spec, b) ↦ inl (url, spec, a, b, λ q c. rw (a, b, ask))
    ]
  ]

  pub ask-ok :
      (t : TableClass) (q : Request) (c : C.State) (url : Text) (spec : TableSpec)
      → address env t ≡ ok url
      → schema t ≡ ok spec
      → ask C env t q c ≡ reply (C.orm url spec q c)
  unfolding ask
  ask-ok t q c url spec a b = rw (a, b, ask)

pub reply-state : {S : Type 0} (x : (Text ⊎ Value) × S) → (reply x).1 ≡ x.1
reply-state (inl m, c) = refl
reply-state (inr v, c) = refl

pub reply-inr :
    {S : Type 0} (x : (Text ⊎ Value) × S) (v : Value) (c : S) → reply x ≡ (ok v, c) → x ≡ (inr v, c)
reply-inr (inl m, d) v c h = absurd (raise-ne-ok (ap (λ r. r.0) h))
reply-inr {S = S} (inr w, d) v c h =
    λ i. (inr (ok-injective (ap (λ (r : Result Value × S). r.0) h) i), (h i).1)
