-- ===== src/Cli/Commands/Run.antt =====
-- What has happened before `vignemale run` serves in its own process.
use mathlib.Core.Path.{subst}
use vignemale.Cli.Commands.{
  DeclaredDb, Process, RunMode, Shell, cmd_run, migrate_all, migrate_each, prepare_app, provision,
}
use vignemale.Prelude.{
  Bool, Bool-cases, List, [], ap, false, if◌then◌else◌, inl, inr, ltb, sym, ℕ, ◌∷◌, ◌≡◌, ◌≢◌,
}
use vignemale.Prelude.Text.{Text}
use vignemale.Python.{Result, and_then, and_then-ok, ok}

module _ (H : Shell) where
  -- From the first process to the second, each of the databases that has migrations was migrated
  -- without an error, in this order.
  abbrev pub Migrated : List DeclaredDb → Process H → Process H → Type 0
  Migrated [] p q = p ≡ q
  Migrated (db ∷ dbs) p q =
      if db.has_migrations
      then ((n : ℕ) × (p' : Process H) × (H.migrate db p ≡ (ok n, p')) × Migrated dbs p' q)
      else Migrated dbs p q

  migrate_each-Migrated :
      (dbs : List DeclaredDb) (p q : Process H)
      → migrate_each H dbs p ≡ (ok tt, q)
      → Migrated dbs p q
  unfolding migrate_each
  migrate_each-Migrated [] p q h = ap (λ r. r.1) h
  migrate_each-Migrated (db ∷ dbs) p q h =
      let applied = and_then (H.migrate db p) (λ n p'. migrate_each H dbs p') in
      let passed = migrate_each H dbs p in
      let here = (n : ℕ) × (p' : Process H) × (H.migrate db p ≡ (ok n, p')) × Migrated dbs p' q in
      let by : Bool → Type 0 = λ b. (if b then applied else passed) ≡ (ok tt, q) in
      let of : Bool → Type 0 = λ b. if b then here else Migrated dbs p q in
      elim (Bool-cases db.has_migrations) [
        | inl has ↦
            let (n, done, rest) =
              and_then-ok (H.migrate db p) (λ n p'. migrate_each H dbs p') tt q (subst by has h) in
            let p' = (H.migrate db p).1 in
            subst of (sym has) (n, p', (λ i. (done i, p')), migrate_each-Migrated dbs p' q rest)
        | inr without ↦ subst of (sym without) (migrate_each-Migrated dbs p q (subst by without h))
      ]

  served-injective :
      {x y : Result (Unit {0}) × Process H}
      → ◌≡◌ {A = RunMode H} (RunMode.served x) (RunMode.served y)
      → x ≡ y
  served-injective h = cc

  workers-ne-served :
      {p : Process H} {n : ℕ} {x : Result (Unit {0}) × Process H}
      → ◌≢◌ {A = RunMode H} (RunMode.workers_from p n) (RunMode.served x)
  workers-ne-served h = cc

  -- A run that has served in its own process and ended in order has first provisioned what the app
  -- declares, then loaded the app, and then migrated every database that the loaded app declares
  -- with migrations, in the order of declaration, each without an error.
  pub cmd_run-Migrated :
      (path addr : Text) (workers : ℕ) (p p' : Process H)
      → cmd_run H path addr workers p ≡ RunMode.served (ok tt, p')
      → (made loaded migrated : Process H) × (provision H path p ≡ (ok tt, made))
        × (H.load_app path made ≡ (ok tt, loaded))
        × Migrated (H.databases loaded.1) loaded migrated
        × (H.serve addr false migrated ≡ (ok tt, p'))
  unfolding cmd_run prepare_app migrate_all
  cmd_run-Migrated path addr workers p p' h = elim (Bool-cases (ltb 1 workers)) [
    | inl many ↦ absurd (workers-ne-served (rw many at h))
    | inr one ↦
        let served_last = served-injective (rw one at h) in
        let (u, prepared, serves) =
          and_then-ok (prepare_app H path p) (λ _ q. H.serve addr false q) tt p' served_last in
        let migrated = (prepare_app H path p).1 in
        let (v, provisioned, h1) =
          and_then-ok (provision H path p) _ tt migrated (λ i. (prepared i, migrated)) in
        let made = (provision H path p).1 in
        let (w, read, h2) = and_then-ok (H.load_app path made) _ tt migrated h1 in
        let loaded = (H.load_app path made).1 in
        (
          made,
          loaded,
          migrated,
          (λ i. (provisioned i, made)),
          (λ i. (read i, loaded)),
          migrate_each-Migrated (H.databases loaded.1) loaded migrated h2,
          serves,
        )
  ]
