-- ===== src/Datamodel/Table/Checked.antt =====
-- What a report of `check_sql_queries` without an error says.
use mathlib.Core.Path.{subst}
use vignemale.Datamodel.Columns.{TableClass}
use vignemale.Datamodel.Table.{
  Core, SqlQuery, SqlReport, Tables, address, check_queries, check_sql_queries, ensure_all,
  prepare_check, report_of,
}
use vignemale.Prelude.{
  All, List, [], all, ap, inl, inr, length, refl, suc, sym, ◌∙◌, ◌∷◌, ◌≡◌, ◌≢◌, ◌⊎◌,
}
use vignemale.Prelude.Text.{Text}
use vignemale.Python.{
  Exception, Result, Result-cases, Value, and_then-ok, api_error, attribute_error, bucket_error,
  key_error, ok, ok-injective, other, raise, raise-ne-ok, runtime_error, sql_error, system_exit,
  type_error, validation_error, value_error,
}
use vignemale.Python.Env.{Env}

-- The core has inferred the types of the query.
abbrev pub Inferred : SqlReport → Type 0
Inferred r = (v : Value) × (r.outcome ≡ inr v)

answer-cases : {A B : Type 0} (x : A ⊎ B) → ((e : A) × (x ≡ inl e)) ⊎ ((v : B) × (x ≡ inr v))
answer-cases (inl e) = inl (e, refl)
answer-cases (inr v) = inr (v, refl)

module _ (C : Core) (env : Env) where
  -- The core has answered the preparation of the compiled query, at the address of its class.
  abbrev pub Prepared : SqlQuery → Type 0
  Prepared q =
      (url : Text) × (c : C.State) × (v : Value) × (address env q.owner ≡ ok url)
      × (C.prepare url q.compiled c ≡ inr v)

  prepare_check-Prepared :
      (q : SqlQuery) (s : Tables C) (v : Value)
      → (prepare_check C env q.owner q.compiled s).0 ≡ ok v
      → Prepared q
  unfolding prepare_check
  prepare_check-Prepared q s v h = elim (Result-cases (address env q.owner)) [
    | inr (e, none_set) ↦ absurd (raise-ne-ok (rw (none_set, prepare_check) at h))
    | inl (url, at) ↦ elim (answer-cases (C.prepare url q.compiled s.core)) [
      | inl (m, refused) ↦ absurd (raise-ne-ok (rw (at, prepare_check, refused) at h))
      | inr (w, answered) ↦ (url, s.core, w, at, answered)
    ]
  ]

  report_of-Inferred :
      (q : SqlQuery) (r : Result Value) (report : SqlReport)
      → report_of C env q r ≡ ok report
      → Inferred report
      → (v : Value) × (r ≡ ok v)
  report_of-Inferred q (ok v) report h i = (v, refl)
  report_of-Inferred q (raise e) report h (v, i) = absurd (refused e h)
    where
      inl-ne-inr : {m : Text} → ◌≢◌ {A = Text ⊎ Value} (inl m) (inr v)
      inl-ne-inr e = cc

      refused : (e : Exception) → report_of C env q (raise e) ≢ ok report
      refused (sql_error m) k = inl-ne-inr (ap (λ (r : SqlReport). r.outcome) (ok-injective k) ∙ i)
      refused (api_error _) k = raise-ne-ok k
      refused (value_error _) k = raise-ne-ok k
      refused (type_error _) k = raise-ne-ok k
      refused (runtime_error _) k = raise-ne-ok k
      refused (system_exit _) k = raise-ne-ok k
      refused (key_error _) k = raise-ne-ok k
      refused (attribute_error _) k = raise-ne-ok k
      refused (bucket_error _) k = raise-ne-ok k
      refused (validation_error _) k = raise-ne-ok k
      refused (other _) k = raise-ne-ok k

  check_queries-Prepared :
      (queries : List SqlQuery) (s s' : Tables C) (reports : List SqlReport)
      → check_queries C env queries s ≡ (ok reports, s')
      → All Inferred reports
      → (length reports ≡ length queries) × All Prepared queries
  unfolding check_queries
  check_queries-Prepared [] s s' reports h i =
      (ap length (sym (ok-injective (ap (λ r. r.0) h))), tt)
  check_queries-Prepared (q ∷ queries) s s' reports h i =
      let (r, s1) = prepare_check C env q.owner q.compiled s in
      let (report, made, h1) = and_then-ok (report_of C env q r, s1) _ reports s' h in
      let (rest, checked, h2) = and_then-ok (check_queries C env queries s1) _ reports s' h1 in
      let both : report ∷ rest ≡ reports = ok-injective (ap (λ x. x.0) h2) in
      let (first, others) = subst (λ rs. All Inferred rs) (sym both) i in
      let (v, prepared) = report_of-Inferred q r report made first in
      let (counted, all) =
        check_queries-Prepared queries s1 (check_queries C env queries s1).1 rest
          (λ k. (checked k, (check_queries C env queries s1).1)) others in
      (sym (ap length both) ∙ ap suc counted, (prepare_check-Prepared q s v prepared, all))

  -- A report on every query, without an error, is of queries that the core has prepared.
  pub check_sql_queries-Prepared :
      (tables : List TableClass) (queries : List SqlQuery) (s s' : Tables C)
      (reports : List SqlReport)
      → check_sql_queries C env tables queries s ≡ (ok reports, s')
      → All Inferred reports
      → (length reports ≡ length queries) × All Prepared queries
  unfolding check_sql_queries
  check_sql_queries-Prepared tables queries s s' reports h i =
      let (_, _, h1) = and_then-ok (ensure_all C env tables s) _ reports s' h in
      check_queries-Prepared queries (ensure_all C env tables s).1 s' reports h1 i
