-- ===== src/Sqldb/Migrate/Applied.antt =====
-- Which migrations a run applies and records.
use mathlib.Core.Path.{subst}
use vignemale.Api.Gateway.{before}
use vignemale.Gdpr.{after}
use vignemale.Prelude.{
  All, Bool-cases, List, [], ap, append-nil, append_assoc, arith, contains, contains-append, false,
  if◌then◌else◌, inl, inr, length, nat_eq, none, opt_eq, pair_eq, refl, some, suc, sym, take, true,
  ℕ, ◌++◌, ◌+◌, ◌<◌, ◌∙◌, ◌∷◌, ◌≡◌, ◌⊎◌,
}
use vignemale.Prelude.Text.{Text, text_eq}
use vignemale.Python.{Result, ok, ok-injective, raise, raise-ne-ok, sql_error}
use vignemale.Sqldb.Migrate.{
  Database, after_batch, apply_files, batch, create_script, migrate, migration_script, run_files,
}

-- A script that succeeds has recorded its migration: the file's SQL leaves the table alone.
abbrev pub IsRecorded : (D : Database) → Text × Text → Type 0
IsRecorded D (name, sql) =
    (d d' : D.State)
    → D.batch (migration_script name sql) d ≡ inr d'
    → D.names d' ≡ D.names d ++ (name ∷ [])

-- What the migrations need of the database: that, of every file, and that the creation of the
-- table keeps the names.
pub record Records (D : Database) (files : List (Text × Text)) : Type 0 where
  pub recorded : All (IsRecorded D) files
  pub created : (d d' : D.State) → D.batch create_script d ≡ inr d' → D.names d' ≡ D.names d

-- The names of the files that are not done, in order.
abbrev pub pending : List Text → List (Text × Text) → List Text
pending done [] = []
pending done ((name, sql) ∷ files) =
    let rest = pending done files in if contains name done then rest else name ∷ rest

-- Every file is among those that are done and those that are pending.
pending_covers :
    (done names : List Text) (files : List (Text × Text))
    → ((g : Text) → contains g (pending done files) ≡ true → contains g names ≡ true)
    → All (λ f. contains f.0 (done ++ names) ≡ true) files
pending_covers done names [] sub = tt
pending_covers done names ((name, sql) ∷ files) sub = elim (Bool-cases (contains name done)) [
  | inl old ↦ (
    ground (arith, contains-append name done names),
    pending_covers done names files (rw old at sub),
  )
  | inr new ↦
      let sub' : (g : Text)
          → contains g (name ∷ pending done files) ≡ true
          → contains g names ≡ true =
        rw new at sub in
      (
        ground (arith, contains-append name done names, sub' name, text_eq.beq_iff name name),
        pending_covers done names files (λ g p. sub' g (ground arith)),
      )
]

-- How a run ends that began with these names: it returns and has recorded all pending names behind
-- them, or it raises and has recorded those before the one that failed.
abbrev pub Recorded : List Text → List Text → ℕ → Result ℕ → List Text → Type 0
Recorded before names applied (ok n) after =
    (after ≡ before ++ names) × (n ≡ applied + length names)
Recorded before names applied (raise e) after =
    (k : ℕ) × (k < length names) × (after ≡ before ++ take k names)

module _ (D : Database) where
  batch-inr :
      (script : Text) (d : D.State) {d' : D.State}
      → batch D script d ≡ ok d'
      → D.batch script d ≡ inr d'
  unfolding batch
  batch-inr script d {d'} h = by_answer (D.batch script d) h
    where
      by_answer :
          (r : Text ⊎ D.State)
          → ◌≡◌ {A = Result D.State}
              (elim r [ inl message ↦ raise (sql_error message) | inr x ↦ ok x ])
              (ok d')
          → r ≡ inr d'
      by_answer (inl message) p = absurd (raise-ne-ok p)
      by_answer (inr x) p = ap (λ y. inr y) (ok-injective p)

  Recorded-cons :
      (before : List Text) (name : Text) (names : List Text) (applied : ℕ) (r : Result ℕ)
      (after : List Text)
      → Recorded (before ++ (name ∷ [])) names (applied + 1) r after
      → Recorded before (name ∷ names) applied r after
  Recorded-cons before name names applied (ok n) after (e, count) =
      (e ∙ append_assoc before (name ∷ []) names, omega arith)
  Recorded-cons before name names applied (raise x) after (k, lt, e) =
      (suc k, omega arith, e ∙ append_assoc before (name ∷ []) (take k names))

  apply_files-new :
      (done : List Text) (name sql : Text) (files : List (Text × Text)) (applied : ℕ) (d : D.State)
      → contains name done ≡ false
      → apply_files D done ((name, sql) ∷ files) applied d
        ≡ after_batch D
            (batch D (migration_script name sql) d)
            d
            (apply_files D done files (applied + 1))
  unfolding apply_files
  apply_files-new done name sql files applied d new = rw (new, apply_files)

  apply_files-old :
      (done : List Text) (name sql : Text) (files : List (Text × Text)) (applied : ℕ) (d : D.State)
      → contains name done ≡ true
      → apply_files D done ((name, sql) ∷ files) applied d ≡ apply_files D done files applied d
  unfolding apply_files
  apply_files-old done name sql files applied d old = rw (old, apply_files)

  apply_files-Recorded :
      (done : List Text) (files : List (Text × Text)) (applied : ℕ) (d : D.State)
      → All (IsRecorded D) files
      → let (r, d') = apply_files D done files applied d in
        Recorded (D.names d) (pending done files) applied r (D.names d')
  apply_files-Recorded done [] applied d R =
      unfold apply_files in (sym (append-nil (D.names d)), omega arith)
  apply_files-Recorded done ((name, sql) ∷ files) applied d R =
      elim (Bool-cases (contains name done)) [
        | inl old ↦
            rw (apply_files-old done name sql files applied d old)
              (rw old (apply_files-Recorded done files applied d R.1))
        | inr new ↦ rw (apply_files-new done name sql files applied d new) (
            rw new (
              step (batch D (migration_script name sql) d) refl
                (λ d'. apply_files-Recorded done files (applied + 1) d' R.1)))
      ]
    where
      step :
          (b : Result D.State)
          → batch D (migration_script name sql) d ≡ b
          → ((d' : D.State)
              → let (r, d'') = apply_files D done files (applied + 1) d' in
                Recorded (D.names d') (pending done files) (applied + 1) r (D.names d''))
          → let (r, d'') = after_batch D b d (apply_files D done files (applied + 1)) in
            Recorded (D.names d) (name ∷ pending done files) applied r (D.names d'')
      step (raise e) h rest = (0, omega arith, sym (append-nil (D.names d)))
      step (ok d') h rest =
          Recorded-cons (D.names d) name (pending done files) applied
            (apply_files D done files (applied + 1) d').0
            (D.names (apply_files D done files (applied + 1) d').1)
            (subst
              (λ before.
                Recorded before (pending done files) (applied + 1)
                  (apply_files D done files (applied + 1) d').0
                  (D.names (apply_files D done files (applied + 1) d').1))
              (R.0 d d' (batch-inr (migration_script name sql) d h)) (rest d'))

  batch-ok : (script : Text) (d d' : D.State) → D.batch script d ≡ inr d' → batch D script d ≡ ok d'
  unfolding batch
  batch-ok script d d' h = rw (h, batch)

  migrate-eq :
      (files : List (Text × Text)) (d d' : D.State)
      → D.batch create_script d ≡ inr d'
      → D.query_error d' ≡ none
      → migrate D (some files) d ≡ apply_files D (D.names d') files 0 d'
  unfolding migrate run_files apply_files
  migrate-eq files d d' h read =
      ap (λ b. after_batch D b d (run_files D files)) (batch-ok create_script d d' h)
      ∙ rw (read, run_files) refl

  -- Where a script that succeeds records its migration and the creation of the table keeps the names,
  -- and where the table is created and read: a run applies the files whose names are not recorded yet, in order, and stops at the first that
  -- fails. If it returns, all of them are recorded and the result is their number; if it raises,
  -- exactly those before the failing one are.
  pub migrate-Recorded :
      (files : List (Text × Text)) (d d' : D.State)
      → Records D files
      → D.batch create_script d ≡ inr d'
      → D.query_error d' ≡ none
      → let (r, d'') = migrate D (some files) d in
        Recorded (D.names d) (pending (D.names d) files) 0 r (D.names d'')
  migrate-Recorded files d d' R h read = rw (migrate-eq files d d' h read) (
      subst
        (λ ns.
          Recorded ns (pending ns files) 0 (apply_files D (D.names d') files 0 d').0
            (D.names (apply_files D (D.names d') files 0 d').1))
        (R.created d d' h) (apply_files-Recorded (D.names d') files 0 d' R.recorded))

  apply_files_done :
      (done : List Text) (files : List (Text × Text)) (applied : ℕ) (d : D.State)
      → All (λ f. contains f.0 done ≡ true) files
      → apply_files D done files applied d ≡ (ok applied, d)
  unfolding apply_files
  apply_files_done done [] applied d h = refl
  apply_files_done done ((name, sql) ∷ files) applied d h =
      rw (h.0, apply_files) (apply_files_done done files applied d h.1)

  -- Where a script that succeeds records its migration and the creation of the table keeps the names,
  -- and where the table is created and read: after a run that returned, a second run on the same files applies nothing and returns 0.
  pub migrate_twice :
      (files : List (Text × Text)) (d made after again : D.State) (n : ℕ)
      → Records D files
      → D.batch create_script d ≡ inr made
      → D.query_error made ≡ none
      → migrate D (some files) d ≡ (ok n, after)
      → D.batch create_script after ≡ inr again
      → D.query_error again ≡ none
      → migrate D (some files) after ≡ (ok 0, again)
  migrate_twice files d made after again n R h read run h' read' =
      migrate-eq files after again h' read'
      ∙ apply_files_done (D.names again) files 0 again (
          subst (λ ns. All (λ f. contains f.0 ns ≡ true) files)
            (sym (R.created after again h' ∙ recorded_all))
            (pending_covers (D.names d) (pending (D.names d) files) files (λ g p. p)))
    where
      recorded_all : D.names after ≡ D.names d ++ pending (D.names d) files
      recorded_all =
          (subst
            (λ (x : Result ℕ × D.State).
              Recorded (D.names d) (pending (D.names d) files) 0 x.0 (D.names x.1))
            run (migrate-Recorded files d made R h read)).0
