-- ===== src/Gdpr/Forget.antt =====
-- What `forget_subject` leaves of a person.
use mathlib.Core.List.{reverse}
use mathlib.Core.Path.{subst}
use vignemale.Datamodel.Columns.{TableClass, pii_fields}
use vignemale.Gdpr.{
  Report, Rows, after, anonymize, erase_rows, forget_subject, forget_table, forget_tables,
  redactions, subject_tables,
}
use vignemale.Prelude.{
  Bool, Bool-cases, Elem, Elem-keep, Elem-reverse, List, [], ap, arith, false, inl, inr, is_empty,
  nat_eq, not, opt_eq, pair_eq, refl, sym, true, ◌==◌, ◌∙◌, ◌∷◌, ◌≡◌, ◌⊎◌,
}
use vignemale.Prelude.Dict.{Dict}
use vignemale.Prelude.Text.{Text, codes, text_eq}
use vignemale.Python.{Result, Value, ok, raise, raise-ne-ok}

-- What a database does with rows.
pub record Keeps (R : Rows) : Type 0 where
  -- counting brings no rows
  pub count_keeps :
      (t u : TableClass) (c d : Text × Value) (s : R.State)
      → (R.count u d s).0 ≡ ok 0
      → (R.count u d (R.count t c s).1).0 ≡ ok 0
  -- no row that meets the criterion is left by a deletion
  pub deleted :
      (t : TableClass) (c : Text × Value) (s s' : R.State)
      → R.delete_where t c s ≡ (ok tt, s')
      → (R.count t c s').0 ≡ ok 0
  -- a deletion brings no rows
  pub delete_keeps :
      (t u : TableClass) (c d : Text × Value) (s s' : R.State)
      → R.delete_where t c s ≡ (ok tt, s')
      → (R.count u d s).0 ≡ ok 0
      → (R.count u d s').0 ≡ ok 0
  -- an update leaves the other tables alone
  pub update_keeps :
      (t u : TableClass) (values : Dict Text Value) (c d : Text × Value) (s s' : R.State)
      → (t.tablename == u.tablename) ≡ false
      → R.update_where t values c s ≡ (ok tt, s')
      → (R.count u d s).0 ≡ ok 0
      → (R.count u d s').0 ≡ ok 0

abbrev pub anonymizes : TableClass → Bool
anonymizes t = t.on_forget == codes "anonymize"

-- No class of the list that anonymizes stands for the same table.
abbrev pub Apart : TableClass → List TableClass → Type 0
Apart t tables =
    (u : TableClass) → Elem u tables → anonymizes u ≡ true → (u.tablename == t.tablename) ≡ false

module _ (R : Rows) where
  after-ok :
      {A B : Type 0} (x : Result A × R.State) {next : A → R.State → Result B × R.State} {b : B}
      {s' : R.State}
      → after R x next ≡ (ok b, s')
      → (a : A) × (s1 : R.State) × (x ≡ (ok a, s1)) × (next a s1 ≡ (ok b, s'))
  after-ok (ok a, s) h = (a, s, refl, h)
  after-ok (raise e, s) h = absurd (raise-ne-ok (ap (λ r. r.0) h))

  -- Counting the rows of the person in each class, and nothing else.
  unfoldable pub count_each : List TableClass → Value → R.State → Result (Unit {0}) × R.State
  count_each [] id s = (ok tt, s)
  count_each (t ∷ tables) id s =
      after R (R.count t (t.subject, id) s) (λ n s'. count_each tables id s')

  after-state :
      {A B D E : Type 0} (x : Result A × R.State) (turn : A → R.State → Result B × R.State)
      (rest : B → R.State → Result D × R.State) (other : A → R.State → Result E × R.State)
      → ((a : A) (s : R.State) → (after R (turn a s) rest).1 ≡ (other a s).1)
      → (after R (after R x turn) rest).1 ≡ (after R x other).1
  after-state (ok a, s) turn rest other same = same a s
  after-state (raise e, s) turn rest other same = refl

  forget_dry :
      (tables : List TableClass) (id : Value) (report : Dict Text Report) (s : R.State)
      → (forget_tables R tables id true report s).1 ≡ (count_each tables id s).1
  unfolding forget_tables forget_table erase_rows count_each
  forget_dry [] id report s = refl
  forget_dry (t ∷ tables) id report s =
      after-state (R.count t (t.subject, id) s) _ (forget_tables R tables id true) _ (λ n s1.
        elim (Bool-cases (n == 0)) [
          | inl e ↦ rw e (forget_dry tables id report s1)
          | inr e ↦ rw e (forget_dry tables id _ s1)
        ])

  -- A dry run does to the database what counting the rows of the person does, from the last class
  -- to the first, however it ends.
  pub forget_subject-dry_run :
      (tables : List TableClass) (id : Value) (s : R.State)
      → (forget_subject R tables id true s).1
        ≡ (count_each (reverse (subject_tables tables)) id s).1
  unfolding forget_subject
  forget_subject-dry_run tables id s = forget_dry (reverse (subject_tables tables)) id [] s

module _ (R : Rows) (K : Keeps R) where
  erase_keeps :
      (t u : TableClass) (id : Value) (d : Text × Value) (s s' : R.State)
      → (anonymizes t ≡ true → (t.tablename == u.tablename) ≡ false)
      → erase_rows R t id false s ≡ (ok tt, s')
      → (R.count u d s).0 ≡ ok 0
      → (R.count u d s').0 ≡ ok 0
  unfolding erase_rows anonymize
  erase_keeps t u id d s s' apart h zero_rows = elim (Bool-cases (anonymizes t)) [
    | inr deletes ↦ K.delete_keeps t u (t.subject, id) d s s' (rw deletes at h) zero_rows
    | inl anon ↦ elim (Bool-cases (is_empty (pii_fields t.columns))) [
      | inl nothing_pii ↦
          subst (λ x. (R.count u d x).0 ≡ ok 0)
            (ap (λ r. r.1) (rw (nothing_pii, anonymize) at (rw anon at h))) zero_rows
      | inr some_pii ↦
          K.update_keeps t u (redactions t.columns) (t.subject, id) d s s' (apart anon)
            (rw (some_pii, anonymize) at (rw anon at h)) zero_rows
    ]
  ]

  erase_deletes :
      (t : TableClass) (id : Value) (s s' : R.State)
      → anonymizes t ≡ false
      → erase_rows R t id false s ≡ (ok tt, s')
      → (R.count t (t.subject, id) s').0 ≡ ok 0
  unfolding erase_rows
  erase_deletes t id s s' deletes h = K.deleted t (t.subject, id) s s' (rw deletes at h)

  -- A turn that returns found no row of the person, or erased.
  forget_table-inv :
      (t : TableClass) (id : Value) (report report' : Dict Text Report) (s s' : R.State)
      → forget_table R t id false report s ≡ (ok report', s')
      → (((R.count t (t.subject, id) s).1 ≡ s') × ((R.count t (t.subject, id) s).0 ≡ ok 0))
        ⊎ (erase_rows R t id false (R.count t (t.subject, id) s).1 ≡ (ok tt, s'))
  unfolding forget_table
  forget_table-inv t id report report' s s' h =
      let (n, s1, counting, rest) = after-ok R (R.count t (t.subject, id) s) h in
      let same : (R.count t (t.subject, id) s).1 ≡ s1 = ap (λ r. r.1) counting in
      elim (Bool-cases (n == 0)) [
        | inl none_left ↦ inl (
          same ∙ ap (λ r. r.1) (rw none_left at rest),
          ap (λ r. r.0) counting ∙ ap (λ k. ok k) ((nat_eq.beq_iff n 0).0 none_left),
        )
        | inr some_left ↦
            let (u, s2, erasing, ending) =
              after-ok R (erase_rows R t id false s1) (rw some_left at rest) in
            inr (
              ap (λ x. erase_rows R t id false x) same
              ∙ erasing
              ∙ ap (λ (r : Result (Dict Text Report) × R.State). (ok tt, r.1)) ending)
      ]

  forget_table-deletes :
      (t : TableClass) (id : Value) (report report' : Dict Text Report) (s s' : R.State)
      → anonymizes t ≡ false
      → forget_table R t id false report s ≡ (ok report', s')
      → (R.count t (t.subject, id) s').0 ≡ ok 0
  forget_table-deletes t id report report' s s' deletes h =
      elim (forget_table-inv t id report report' s s' h) [
        | inl (same, zero_rows) ↦
            subst (λ x. (R.count t (t.subject, id) x).0 ≡ ok 0) same
              (K.count_keeps t t (t.subject, id) (t.subject, id) s zero_rows)
        | inr erasing ↦ erase_deletes t id (R.count t (t.subject, id) s).1 s' deletes erasing
      ]

  forget_keeps :
      (tables : List TableClass) (u : TableClass) (id : Value) (d : Text × Value)
      (report report' : Dict Text Report) (s s' : R.State)
      → Apart u tables
      → forget_tables R tables id false report s ≡ (ok report', s')
      → (R.count u d s).0 ≡ ok 0
      → (R.count u d s').0 ≡ ok 0
  unfolding forget_tables
  forget_keeps [] u id d report report' s s' apart h zero_rows =
      subst (λ x. (R.count u d x).0 ≡ ok 0) (ap (λ r. r.1) h) zero_rows
  forget_keeps (t ∷ tables) u id d report report' s s' apart h zero_rows =
      let (report1, s1, turn, rest) = after-ok R (forget_table R t id false report s) h in
      let counted = K.count_keeps t u (t.subject, id) d s zero_rows in
      forget_keeps tables u id d report1 report' s1 s' (λ v m. apart v (inr m)) rest
        (elim (forget_table-inv t id report report1 s s1 turn) [
          | inl (same, _) ↦ subst (λ x. (R.count u d x).0 ≡ ok 0) same counted
          | inr erasing ↦ erase_keeps t u id d _ s1 (apart t (inl refl)) erasing counted
        ])

  forget_deletes :
      (tables : List TableClass) (u : TableClass) (id : Value) (report report' : Dict Text Report)
      (s s' : R.State)
      → Apart u tables
      → anonymizes u ≡ false
      → Elem u tables
      → forget_tables R tables id false report s ≡ (ok report', s')
      → (R.count u (u.subject, id) s').0 ≡ ok 0
  unfolding forget_tables
  forget_deletes [] u id report report' s s' apart deletes there h = absurd there
  forget_deletes (t ∷ tables) u id report report' s s' apart deletes there h =
      let (report1, s1, turn, rest) = after-ok R (forget_table R t id false report s) h in
      elim there [
        | inr m ↦
            forget_deletes tables u id report1 report' s1 s' (λ v k. apart v (inr k)) deletes m rest
        | inl e ↦
            forget_keeps tables u id (u.subject, id) report1 report' s1 s' (λ v k. apart v (inr k))
              rest
              (subst (λ v. (R.count v (v.subject, id) s1).0 ≡ ok 0) (sym e)
                (forget_table-deletes t id report report1 s s1 (ap anonymizes (sym e) ∙ deletes)
                  turn))
      ]

  -- After `forget_subject` has returned, no table of the app that deletes on forgetting has a row of
  -- the person, if no anonymizing class stands for the same table: where neither counting nor a
  -- deletion brings rows, a deletion leaves none that meets its criterion, and an update leaves
  -- the other tables alone.
  pub forget_subject-deletes :
      (tables : List TableClass) (t : TableClass) (id : Value) (report : Dict Text Report)
      (s s' : R.State)
      → Elem t tables
      → is_empty t.subject ≡ false
      → anonymizes t ≡ false
      → Apart t tables
      → forget_subject R tables id false s ≡ (ok report, s')
      → (R.count t (t.subject, id) s').0 ≡ ok 0
  unfolding forget_subject subject_tables
  forget_subject-deletes tables t id report s s' there linked deletes apart h =
      forget_deletes (reverse (subject_tables tables)) t id [] report s s'
        (λ u m. apart u (
          ((Elem-keep (λ v. not (is_empty v.subject)) u tables).0
            ((Elem-reverse u (subject_tables tables)).0 m)).0))
        deletes
        ((Elem-reverse t (subject_tables tables)).1
          ((Elem-keep (λ v. not (is_empty v.subject)) t tables).1 (there, ground arith)))
        h
