-- ===== src/Datamodel/Table/Ensured.antt =====
-- Creating a table once, before the first operation on it, against creating it before each.
use mathlib.Core.Path.{subst}
use vignemale.Cli.Collect.Syntax.{calls}
use vignemale.Datamodel.Columns.{TableClass}
use vignemale.Datamodel.Table.{
  Core, Request, TableSpec, Tables, address, ask, ensure, ensure_request, mark, raw_op, registered,
  reply, run_op, schema,
}
use vignemale.Datamodel.Table.Program.{
  TableCall, ask-cases, ask-ok, ask_always, reply-inr, reply-state, run_always, run_calls,
}
use vignemale.Prelude.{
  All, Bool-cases, Elem, List, [], ap, arith, contains, contains-append, false, inl, inr, nat_eq,
  opt_eq, pair_eq, refl, sym, true, ◌++◌, ◌==◌, ◌∙◌, ◌∷◌, ◌≡◌,
}
use vignemale.Prelude.Text.{Text, text_eq}
use vignemale.Python.{Result, Value, and_then, ok, raise}
use vignemale.Python.Env.{Env}

-- What the core promises of the creation of tables.
pub record Creates (C : Core) : Type 1 where
  pub Ready : Text → TableSpec → C.State → Type 0
  -- a creation that succeeds makes the table ready
  pub made :
      (url : Text) (spec : TableSpec) (v : Value) (c c' : C.State)
      → C.orm url spec ensure_request c ≡ (inr v, c')
      → Ready url spec c'
  -- creating a table that is ready succeeds and changes nothing
  pub idle :
      (url : Text) (spec : TableSpec) (c : C.State)
      → Ready url spec c
      → (v : Value) × (C.orm url spec ensure_request c ≡ (inr v, c))
  -- no operation undoes it
  pub kept :
      (url url' : Text) (spec spec' : TableSpec) (q : Request) (c : C.State)
      → Ready url spec c
      → Ready url spec (C.orm url' spec' q c).1

-- No two classes have the same name.
abbrev pub Named : List TableClass → Type 0
Named classes =
    (t u : TableClass)
    → Elem t classes
    → Elem u classes
    → (t.model_name == u.model_name) ≡ true
    → t ≡ u

module _ (C : Core) (K : Creates C) (env : Env) (classes : List TableClass) where
  -- The table of the class is ready, where it is.
  abbrev ReadyAt : TableClass → C.State → Type 0
  ReadyAt t c =
      (url : Text) (spec : TableSpec)
      → address env t ≡ ok url
      → schema t ≡ ok spec
      → K.Ready url spec c

  -- Every class that is marked has its table.
  abbrev pub Marked : List Text → C.State → Type 0
  Marked ensured c =
      (t : TableClass) → Elem t classes → contains t.model_name ensured ≡ true → ReadyAt t c

  ask-ReadyAt :
      (t u : TableClass) (q : Request) (c : C.State) → ReadyAt t c → ReadyAt t (ask C env u q c).1
  ask-ReadyAt t u q c h url spec a b = elim (ask-cases C env u) [
    | inl (url', spec', _, _, asked) ↦
        subst (K.Ready url spec)
          (sym (ap (λ r. r.1) (asked q c) ∙ reply-state (C.orm url' spec' q c)))
          (K.kept url url' spec spec' q c (h url spec a b))
    | inr (e, failing) ↦
        subst (K.Ready url spec) (sym (ap (λ r. r.1) (failing q c))) (h url spec a b)
  ]

  always-ask :
      (t : TableClass) (q : Request) (c : C.State)
      → ReadyAt t c
      → ask_always C env t q c ≡ ask C env t q c
  unfolding ask_always
  always-ask t q c h = elim (ask-cases C env t) [
    | inl (url, spec, a, b, asked) ↦
        let (v, e) = K.idle url spec c (h url spec a b) in
        ap (λ x. and_then x (λ _ c'. ask C env t q c')) (asked ensure_request c ∙ ap reply e)
    | inr (e, failing) ↦
        ap (λ x. and_then x (λ _ c'. ask C env t q c')) (failing ensure_request c)
        ∙ sym (failing q c)
  ]

  made-ReadyAt :
      (t : TableClass) (v : Value) (c c' : C.State)
      → ask C env t ensure_request c ≡ (ok v, c')
      → ReadyAt t c'
  made-ReadyAt t v c c' h url spec a b = K.made url spec v c c' (
      reply-inr (C.orm url spec ensure_request c) v c'
        (sym (ask-ok C env t ensure_request c url spec a b) ∙ h))

  -- An operation on a class without a mark, from the answer to its `ensure`.
  abbrev first_op :
      TableClass → Request → Tables C → Result Value × C.State → Result Value × Tables C
  first_op t q s (r, c) =
      and_then
        (and_then (r, record s { core = c; databases = registered t s.databases }) (mark C env t))
        (λ _ s'. raw_op C env t q s')

  run_op-first :
      (t : TableClass) (q : Request) (s : Tables C)
      → contains t.model_name s.ensured ≡ false
      → run_op C env t q s ≡ first_op t q s (ask C env t ensure_request s.core)
  unfolding run_op ensure raw_op
  run_op-first t q s h = rw (h, run_op, ensure) refl

  run_op-marked :
      (t : TableClass) (q : Request) (s : Tables C)
      → contains t.model_name s.ensured ≡ true
      → run_op C env t q s ≡ raw_op C env t q s
  unfolding run_op ensure
  run_op-marked t q s h = rw (h, run_op, ensure) refl

  Marked-ask :
      (t : TableClass) (q : Request) (ensured : List Text) (c : C.State)
      → Marked ensured c
      → Marked ensured (ask C env t q c).1
  Marked-ask t q ensured c h u there marked = ask-ReadyAt u t q c (h u there marked)

  Marked-more :
      (t : TableClass) (ensured : List Text) (c : C.State)
      → Named classes
      → Elem t classes
      → Marked ensured c
      → ReadyAt t c
      → Marked (ensured ++ (t.model_name ∷ [])) c
  Marked-more t ensured c distinct here h ready u there marked =
      elim (Bool-cases (contains u.model_name ensured)) [
        | inl old ↦ h u there old
        | inr new ↦
            subst (λ v. ReadyAt v c)
              (distinct t u here there
                (ground (arith, contains-append u.model_name ensured (t.model_name ∷ []))))
              ready
      ]

  -- One operation of the code and of the reference: what they return, the core after them, and that
  -- the marks stay right.
  record Agrees (t : TableClass) (q : Request) (s : Tables C) : Type 0 where
    outcome : (run_op C env t q s).0 ≡ (ask_always C env t q s.core).0
    core : (run_op C env t q s).1.core ≡ (ask_always C env t q s.core).1
    marked : Marked (run_op C env t q s).1.ensured (run_op C env t q s).1.core

  first_op-Agrees :
      (t : TableClass) (q : Request) (s : Tables C) (x : Result Value × C.State)
      → Named classes
      → Elem t classes
      → Marked s.ensured s.core
      → ask C env t ensure_request s.core ≡ x
      → ((first_op t q s x).0 ≡ (and_then x (λ _ c. ask C env t q c)).0)
        × ((first_op t q s x).1.core ≡ (and_then x (λ _ c. ask C env t q c)).1)
        × Marked (first_op t q s x).1.ensured (first_op t q s x).1.core
  first_op-Agrees t q s (raise e, c) distinct here h asked = (
    refl,
    refl,
    subst (Marked s.ensured) (ap (λ r. r.1) asked) (Marked-ask t ensure_request s.ensured s.core h),
  )
  first_op-Agrees t q s (ok v, c) distinct here h asked =
      unfold raw_op in
      (
        refl,
        refl,
        Marked-ask t q (s.ensured ++ (t.model_name ∷ [])) c (
            Marked-more t s.ensured c distinct here
              (subst (Marked s.ensured) (ap (λ r. r.1) asked)
                (Marked-ask t ensure_request s.ensured s.core h))
              (made-ReadyAt t v s.core c asked)),
      )

  run_op-Agrees :
      (t : TableClass) (q : Request) (s : Tables C)
      → Named classes
      → Elem t classes
      → Marked s.ensured s.core
      → Agrees t q s
  unfolding ask_always raw_op
  run_op-Agrees t q s distinct here h = elim (Bool-cases (contains t.model_name s.ensured)) [
    | inl marked ↦
        let e = run_op-marked t q s marked in
        let a = always-ask t q s.core (h t here marked) in
        record {
          outcome = ap (λ r. r.0) e ∙ ap (λ r. r.0) (sym a);
          core = ap (λ r. r.1.core) e ∙ ap (λ r. r.1) (sym a);
          marked =
              subst (λ (u : Tables C). Marked u.ensured u.core) (ap (λ r. r.1) (sym e))
                (Marked-ask t q s.ensured s.core h);
        }
    | inr new ↦
        let e = run_op-first t q s new in
        let (a, b, m) =
          first_op-Agrees t q s (ask C env t ensure_request s.core) distinct here h refl in
        record {
          outcome = ap (λ r. r.0) e ∙ a;
          core = ap (λ r. r.1.core) e ∙ b;
          marked = subst (λ (u : Tables C). Marked u.ensured u.core) (ap (λ r. r.1) (sym e)) m;
        }
  ]

  -- A program of operations gives what the reference gives, which creates the table before every
  -- operation: the same results in the same order, exceptions included, and the same core, if the
  -- classes have different names, each class that is marked has its table, and the core's creation
  -- of tables is idempotent.
  pub run_calls_refines :
      (calls : List TableCall) (s : Tables C)
      → Named classes
      → All (λ call. Elem call.0 classes) calls
      → Marked s.ensured s.core
      → ((run_calls C env calls s).0 ≡ (run_always C env calls s.core).0)
        × ((run_calls C env calls s).1.core ≡ (run_always C env calls s.core).1)
  unfolding run_calls run_always
  run_calls_refines [] s distinct there h = (refl, refl)
  run_calls_refines ((t, q) ∷ calls) s distinct there h =
      let a = run_op-Agrees t q s distinct there.0 h in
      let (rs, c) = run_calls_refines calls (run_op C env t q s).1 distinct there.1 a.marked in
      (
        λ i. a.outcome i ∷ (rs ∙ ap (λ d. (run_always C env calls d).0) a.core) i,
        c ∙ ap (λ d. (run_always C env calls d).1) a.core,
      )
