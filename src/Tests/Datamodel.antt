-- ===== src/Tests/Datamodel.antt =====
-- `vignemale/datamodel.py` and `vignemale/gdpr.py`.
use mathlib.Core.Bool.{false≢true}
use mathlib.Core.List.{reverse}
use mathlib.Core.Path.{subst}
use vignemale.Api.Registry.{Kwargs}
use vignemale.Datamodel.Columns.{TableClass, pii_fields}
use vignemale.Datamodel.Query.{
  arguments, bind, bound_values, compile, index_of, minus, names_of, outside, render, scan,
  scan_step, zip,
}
use vignemale.Datamodel.Query.Binding.{bound_values-passed, passed}
use vignemale.Datamodel.Query.Placeholders.{compile-names, write_back}
use vignemale.Datamodel.Query.Rendered.{Rendered}
use vignemale.Datamodel.Table.{Core, Request, TableSpec, Tables}
use vignemale.Datamodel.Table.Ensured.{Creates, Named, run_calls_refines}
use vignemale.Datamodel.Table.Program.{TableCall, run_always, run_calls}
use vignemale.Datamodel.Table.Registry.{run_calls_grows}
use vignemale.Gdpr.{
  Report, Rows, anonymize, erase_rows, forget_subject, forget_table, forget_tables, subject_tables,
}
use vignemale.Gdpr.Forget.{
  Apart, Keeps, anonymizes, count_each, forget_subject-deletes, forget_subject-dry_run,
}
use vignemale.Prelude.{
  Bool-cases, List, [], ap, arith, contains, contains-append, false, get_elem?, if◌then◌else◌, inl,
  inr, length, list_beq, nat_eq, opt_eq, or_else, pair_eq, refl, some, sym, true, ℕ, ◌&&◌, ◌++◌,
  ◌==◌, ◌↔◌, ◌∙◌, ◌∷◌, ◌≡◌, ◌≤◌, ◌⊎◌,
}
use vignemale.Prelude.Dict.{Dict, erase, has_key, insert, lookup, lookup-erase, update}
use vignemale.Prelude.Text.{Text, codes, print_nat, text_eq}
use vignemale.Python.{Result, Value, end, null, ok, ok-injective, str}
use vignemale.Python.Env.{Env}

abbrev two_names : List Text
two_names = codes "plan" ∷ codes "age" ∷ []

abbrev people : Text
people = codes "a = $age AND b = $plan OR $age"

compiled_text : compile two_names people ≡ ok (codes "a = $2 AND b = $1 OR $2")
unfolding compile minus scan scan_step names_of render index_of print_nat list_beq
compiled_text = refl

compile-names_example :
    (write_back (scan outside people) ≡ people)
    × Rendered two_names (scan outside people) (codes "a = $2 AND b = $1 OR $2")
    × ((n : Text)
        → (contains n (names_of (scan outside people)) ≡ true) ↔ (contains n two_names ≡ true))
compile-names_example =
    compile-names two_names people (codes "a = $2 AND b = $1 OR $2") compiled_text

abbrev as_is : Text → Value → Result Value
as_is n v = ok v

abbrev pro : List Value
pro = str (codes "pro") ∷ []

abbrev adult : Kwargs
adult = (codes "age", str (codes "18")) ∷ []

bound_runs : bound_values as_is two_names pro adult ≡ ok (str (codes "pro") ∷ str (codes "18") ∷ [])
unfolding bound_values arguments bind zip minus update insert list_beq
bound_runs = refl

bound_values-passed_example :
    (w : Value) × (v : Value) × (passed two_names pro adult (codes "age") ≡ some w)
    × (as_is (codes "age") w ≡ ok v)
    × (get_elem? (str (codes "pro") ∷ str (codes "18") ∷ []) (index_of (codes "age") two_names)
        ≡ some v)
    × ((has_key (codes "age") adult && has_key (codes "age") (zip two_names pro)) ≡ false)
unfolding list_beq
bound_values-passed_example =
    bound_values-passed as_is two_names pro adult (str (codes "pro") ∷ str (codes "18") ∷ [])
      (codes "age") (refl, tt) bound_runs refl

-- A database that knows of one person, by table the number of rows.
abbrev one_person : Rows
one_person = record {
  State = Dict Text ℕ;
  count = λ t c s. (ok (or_else (lookup t.tablename s) 0), s);
  find = λ t c s. (ok [], s);
  delete_where = λ t c s. (ok tt, erase t.tablename s);
  update_where = λ t values c s. (ok tt, s);
}

erase_deletes_rows : (k : Text) (s : Dict Text ℕ) → or_else (lookup k (erase k s)) 0 ≡ 0
erase_deletes_rows k s = ground (arith, lookup-erase k k s, text_eq.beq_iff k k)

erase_keeps_none :
    (j k : Text) (s : Dict Text ℕ)
    → or_else (lookup j s) 0 ≡ 0
    → or_else (lookup j (erase k s)) 0 ≡ 0
erase_keeps_none j k s h = ground (arith, lookup-erase j k s)

one_person-Keeps : Keeps one_person
one_person-Keeps = record {
  count_keeps = λ t u c d s z. z;
  deleted = λ t c s s' h.
      subst (λ x. ◌≡◌ {A = Result ℕ} (ok (or_else (lookup t.tablename x) 0)) (ok 0))
        (ap (λ r. r.1) h) (ap (λ n. ok n) (erase_deletes_rows t.tablename s));
  delete_keeps = λ t u c d s s' h z.
      subst (λ x. ◌≡◌ {A = Result ℕ} (ok (or_else (lookup u.tablename x) 0)) (ok 0))
        (ap (λ r. r.1) h)
        (ap (λ n. ok n) (erase_keeps_none u.tablename t.tablename s (ok-injective z)));
  update_keeps = λ t u values c d s s' apart h z.
      subst (λ x. ◌≡◌ {A = Result ℕ} (ok (or_else (lookup u.tablename x) 0)) (ok 0))
        (ap (λ r. r.1) h) z;
}

abbrev class_of : Text → Text → TableClass
class_of name on_forget = record {
  model_module = codes "app";
  model_name = name;
  tablename = name;
  database = codes "d";
  subject = codes "person";
  on_forget = on_forget;
  columns = [];
}

abbrev users_table : TableClass
users_table = class_of (codes "users") (codes "delete")

abbrev stats_table : TableClass
stats_table = class_of (codes "stats") (codes "anonymize")

abbrev app_tables : List TableClass
app_tables = users_table ∷ stats_table ∷ []

abbrev rows_before : Dict Text ℕ
rows_before = (codes "users", 1) ∷ (codes "stats", 4) ∷ []

abbrev forgotten : Dict Text Report
forgotten =
    (codes "stats", record { rows = 4; action = codes "anonymize"; dry_run = false })
    ∷ (codes "users", record { rows = 1; action = codes "delete"; dry_run = false })
    ∷ []

forget_runs :
    forget_subject one_person app_tables null false rows_before
    ≡ (ok forgotten, (codes "stats", 4) ∷ [])
unfolding forget_subject forget_tables forget_table erase_rows anonymize pii_fields subject_tables
    insert erase list_beq
forget_runs = refl

forget_subject-dry_run_example :
    (forget_subject one_person app_tables null true rows_before).1
    ≡ (count_each one_person (reverse (subject_tables app_tables)) null rows_before).1
forget_subject-dry_run_example = forget_subject-dry_run one_person app_tables null rows_before

users-Apart : Apart users_table app_tables
unfolding list_beq
users-Apart u m anon = elim m [
  | inl e ↦ absurd (false≢true (sym (ap anonymizes e) ∙ anon))
  | inr (inl e) ↦ ap (λ v. v.tablename == codes "users") e
  | inr (inr n) ↦ absurd n
]

forget_subject-deletes_example :
    (one_person.count users_table (codes "person", null) ((codes "stats", 4) ∷ [])).0 ≡ ok 0
unfolding list_beq
forget_subject-deletes_example =
    forget_subject-deletes one_person one_person-Keeps app_tables users_table null forgotten
      rows_before ((codes "stats", 4) ∷ []) (inl refl) refl refl users-Apart forget_runs

-- A core that knows the tables by name.
abbrev toy_orm : Text → TableSpec → Request → List Text → (Text ⊎ Value) × List Text
toy_orm url spec q c =
    let made = if contains spec.table c then c else c ++ (spec.table ∷ []) in
    if q.op == codes "ensure"
    then (inr null, made)
    else if contains spec.table c
    then (inr (str (codes "done")), c)
    else (inl (codes "no such table"), c)

abbrev toy_core : Core
toy_core = record { State = List Text; orm = toy_orm; prepare = λ url query c. inr null }

orm_keeps :
    (url : Text) (spec : TableSpec) (q : Request) (n : Text) (c : List Text)
    → contains n c ≡ true
    → contains n (toy_orm url spec q c).1 ≡ true
orm_keeps url spec q n c h = elim (Bool-cases (q.op == codes "ensure")) [
  | inr other ↦ elim (Bool-cases (contains spec.table c)) [
    | inl there ↦ rw (other, there) h
    | inr absent ↦ rw (other, absent) h
  ]
  | inl creates ↦ elim (Bool-cases (contains spec.table c)) [
    | inl there ↦ rw (creates, there) h
    | inr absent ↦ rw (creates, absent) (ground (arith, contains-append n c (spec.table ∷ [])))
  ]
]

toy_made :
    (n : Text) (c : List Text) → contains n (if contains n c then c else c ++ (n ∷ [])) ≡ true
toy_made n c = ground (arith, contains-append n c (n ∷ []), text_eq.beq_iff n n)

toy_core-Creates : Creates toy_core
unfolding list_beq
toy_core-Creates = record {
  Ready = λ url spec c. contains spec.table c ≡ true;
  made = λ url spec v c c' h.
      subst (λ x. contains spec.table x ≡ true) (ap (λ r. r.1) h) (toy_made spec.table c);
  idle = λ url spec c h. (null, rw h refl);
  kept = λ url url' spec spec' q c h. orm_keeps url' spec' q spec.table c h;
}

abbrev table_env : Env
table_env = (codes "VIGNEMALE_SQLDB", codes "postgres://db") ∷ []

abbrev counting : Request
counting = record { op = codes "count"; args = end }

abbrev program : List TableCall
program = (users_table, counting) ∷ (stats_table, counting) ∷ (users_table, counting) ∷ []

abbrev no_tables : Tables toy_core
no_tables = record { core = []; ensured = []; databases = [] }

app_tables-Named : Named app_tables
unfolding list_beq
app_tables-Named t u there also same = elim there [
  | inl e ↦ elim also [
    | inl f ↦ e ∙ sym f
    | inr (inl f) ↦ absurd (false≢true (sym (λ i. ((e i).model_name == (f i).model_name)) ∙ same))
    | inr (inr n) ↦ absurd n
  ]
  | inr (inl e) ↦ elim also [
    | inl f ↦ absurd (false≢true (sym (λ i. ((e i).model_name == (f i).model_name)) ∙ same))
    | inr (inl f) ↦ e ∙ sym f
    | inr (inr n) ↦ absurd n
  ]
  | inr (inr n) ↦ absurd n
]

run_calls_refines_example :
    ((run_calls toy_core table_env program no_tables).0
      ≡ (run_always toy_core table_env program []).0)
    × ((run_calls toy_core table_env program no_tables).1.core
        ≡ (run_always toy_core table_env program []).1)
run_calls_refines_example =
    run_calls_refines toy_core toy_core-Creates table_env app_tables program no_tables
      app_tables-Named (inl refl, (inr (inl refl), (inl refl, tt)))
      (λ t m marked. absurd (false≢true marked))

run_calls_grows_example : 3 ≤ length (run_calls toy_core table_env program no_tables).1.databases
run_calls_grows_example =
    run_calls_grows toy_core table_env program no_tables (refl, (refl, (refl, tt)))
