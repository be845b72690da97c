-- ===== src/Cli/Devinfra/Databases.antt =====
-- The addresses that `provision_local` leaves in the environment.
use mathlib.Core.Bool.{false≢true}
use mathlib.Core.Option.{none-ne-some}
use mathlib.Core.Path.{subst}
use vignemale.Backends.{dsn, sqldb_key}
use vignemale.Cli.Auth.{later}
use vignemale.Cli.Collect.Extract.{nothing}
use vignemale.Cli.Devinfra.{Machine, ensure_postgres, postgres_url, sanitize, sanitize_char}
use vignemale.Cli.Devinfra.Provision.{
  Local, ensure_database, is_missing, local_dsn, on_machine, provision_each, provision_local,
}
use vignemale.Cli.Poll.{proceed-ok}
use vignemale.Prelude.{
  Bool-cases, Elem, Elem-keep, List, Option-cases, [], any, any-Elem, ap, arith, false,
  if◌then◌else◌, inl, inr, is_empty, keep, nat_eq, none, opt_eq, pair_eq, refl, some, sym, true, ℕ,
  ◌==◌, ◌∙◌, ◌∷◌, ◌≡◌, ◌⊎◌,
}
use vignemale.Prelude.Dict.{insert, lookup-insert}
use vignemale.Prelude.Text.{Text, codes, lower, replace_char, text_eq, to_lower, to_upper, upper}
use vignemale.Python.{ok}
use vignemale.Python.Env.{Env, env_suffix, get_env}

-- The characters of a variable name decide those of the database.
sanitize-char :
    (c : ℕ)
    → sanitize_char (to_lower (if to_upper c == b'-' then b'_' else to_upper c))
      ≡ sanitize_char (to_lower c)
unfolding sanitize_char to_lower to_upper
sanitize-char c = ground arith

sanitize-env_suffix : (name : Text) → sanitize (env_suffix name) ≡ sanitize name
unfolding sanitize env_suffix replace_char upper lower
sanitize-env_suffix [] = refl
sanitize-env_suffix (c ∷ name) = λ i. sanitize-char c i ∷ sanitize-env_suffix name i

key-injective : (a b : Text) → sqldb_key a ≡ sqldb_key b → env_suffix a ≡ env_suffix b
key-injective a b h = cc

-- Names with one variable have one database.
pub same_key-same_dsn : (a b : Text) → sqldb_key a ≡ sqldb_key b → local_dsn a ≡ local_dsn b
same_key-same_dsn a b h =
    ap postgres_url
      (sym (sanitize-env_suffix a) ∙ ap sanitize (key-injective a b h) ∙ sanitize-env_suffix b)

get_env-insert :
    (j k v : Text) (c : ℕ) (env : Env)
    → get_env j (insert k (c ∷ v) env) ≡ (if k == j then some (c ∷ v) else get_env j env)
unfolding get_env
get_env-insert j k v c env = elim (Bool-cases (k == j)) [
  | inl e ↦ rw (lookup-insert j k (c ∷ v) env, e) refl
  | inr e ↦ rw (lookup-insert j k (c ∷ v) env, e) refl
]

module _ (M : Machine) (fuel : ℕ) where
  -- What the loop leaves of a variable.
  each-other :
      (names : List Text) (w w' : Local M) (k : Text)
      → provision_each M fuel names w ≡ (some (ok tt), w')
      → ((name : Text) → Elem name names → (sqldb_key name == k) ≡ false)
      → get_env k w'.env ≡ get_env k w.env
  unfolding provision_each
  each-other [] w w' k h other = ap (λ r. get_env k r.1.env) (sym h)
  each-other (name ∷ names) w w' k h other =
      let (_, _, rest) =
        proceed-ok (on_machine M fuel (ensure_database M fuel (sanitize name)) w) _ tt w' h in
      each-other names _ w' k rest (λ n m. other n (inr m))
      ∙ get_env-insert k (sqldb_key name) _ b'p' w.env
      ∙ rw (other name (inl refl)) refl

  key-cases :
      (k : Text) (names : List Text)
      → ((name : Text) × Elem name names × (sqldb_key name ≡ k))
        ⊎ ((name : Text) → Elem name names → (sqldb_key name == k) ≡ false)
  key-cases k names = elim (Bool-cases (any (λ name. sqldb_key name == k) names)) [
    | inl h ↦
        let (name, m, e) = (any-Elem (λ n. sqldb_key n == k) names).0 h in
        inl (name, m, (text_eq.beq_iff (sqldb_key name) k).0 e)
    | inr h ↦ inr (λ name m. elim (Bool-cases (sqldb_key name == k)) [
      | inr f ↦ f
      | inl t ↦
          absurd (false≢true (sym h ∙ (any-Elem (λ n. sqldb_key n == k) names).1 (name, m, t)))
    ])
  ]

  each-set :
      (names : List Text) (w w' : Local M) (name : Text)
      → provision_each M fuel names w ≡ (some (ok tt), w')
      → Elem name names
      → get_env (sqldb_key name) w'.env ≡ some (local_dsn name)
  unfolding provision_each
  each-set [] w w' name h there = absurd there
  each-set (first ∷ names) w w' name h there =
      let (_, _, rest) =
        proceed-ok (on_machine M fuel (ensure_database M fuel (sanitize first)) w) _ tt w' h in
      elim there [
        | inr m ↦ each-set names _ w' name rest m
        | inl e ↦ elim (key-cases (sqldb_key name) names) [
          | inl (later, m, same) ↦
              subst (λ k. get_env k w'.env ≡ some (local_dsn name)) same
                (each-set names _ w' later rest m
                  ∙ ap (λ d. some d) (same_key-same_dsn later name same))
          | inr other ↦
              each-other names _ w' (sqldb_key name) rest other
              ∙ get_env-insert (sqldb_key name) (sqldb_key first) _ b'p' w.env
              ∙ (let q : (sqldb_key first == sqldb_key name) ≡ true =
                    (text_eq.beq_iff (sqldb_key first) (sqldb_key name)).1 (ap sqldb_key (sym e)) in
                  rw q (ap (λ n. some (local_dsn n)) (sym e)))
        ]
      ]

  missing-key :
      (env : Env) (name : Text)
      → is_missing env name ≡ true
      → (get_env (sqldb_key name) env ≡ none) × (get_env (codes "VIGNEMALE_SQLDB") env ≡ none)
  unfolding is_missing
  missing-key env name h = ground arith

  -- The variables of the missing databases were unset.
  other-key :
      (env : Env) (names : List Text) (k d : Text)
      → get_env k env ≡ some d
      → (name : Text) → Elem name (keep (is_missing env) names)
      → (sqldb_key name == k) ≡ false
  other-key env names k d h name m =
      let unset = missing-key env name ((Elem-keep (is_missing env) name names).0 m).1 in
      elim (Bool-cases (sqldb_key name == k)) [
        | inr f ↦ f
        | inl t ↦ absurd (
            none-ne-some _ (
              sym unset.0 ∙ ap (λ j. get_env j env) ((text_eq.beq_iff (sqldb_key name) k).0 t) ∙ h))
      ]

  Elem-is_empty : (x : Text) (xs : List Text) → Elem x xs → is_empty xs ≡ false
  Elem-is_empty x [] m = absurd m
  Elem-is_empty x (y ∷ xs) m = refl

  dsn-set :
      (env : Env) (name d : Text) → get_env (sqldb_key name) env ≡ some d → dsn env name ≡ ok d
  unfolding dsn
  dsn-set env name d h = rw (h, dsn)

  dsn-default :
      (env : Env) (name d : Text)
      → get_env (sqldb_key name) env ≡ none
      → get_env (codes "VIGNEMALE_SQLDB") env ≡ some d
      → dsn env name ≡ ok d
  unfolding dsn
  dsn-default env name d h k = rw (h, k, dsn)

  present-kept :
      (names : List Text) (w w' : Local M) (name : Text)
      → provision_each M fuel (keep (is_missing w.env) names) w ≡ (some (ok tt), w')
      → is_missing w.env name ≡ false
      → dsn w'.env name ≡ dsn w.env name
  unfolding is_missing
  present-kept names w w' name rest present =
      let kept : (k d : Text) → get_env k w.env ≡ some d → get_env k w'.env ≡ get_env k w.env =
        λ k d set.
          each-other (keep (is_missing w.env) names) w w' k rest (other-key w.env names k d set) in
      elim (Option-cases (get_env (sqldb_key name) w.env)) [
        | inr (d, set) ↦
            dsn-set w'.env name d (kept (sqldb_key name) d set ∙ set)
            ∙ sym (dsn-set w.env name d set)
        | inl unset ↦ elim (Option-cases (get_env (codes "VIGNEMALE_SQLDB") w.env)) [
          | inl none_set ↦ absurd (ground arith)
          | inr (d, set) ↦
              dsn-default w'.env name d
                (each-other (keep (is_missing w.env) names) w w' (sqldb_key name) rest (λ n m.
                    absurd (
                      none-ne-some d (
                        sym (missing-key w.env n ((Elem-keep (is_missing w.env) n names).0 m).1).1
                        ∙ set)))
                  ∙ unset)
                (kept (codes "VIGNEMALE_SQLDB") d set ∙ set)
              ∙ sym (dsn-default w.env name d unset set)
        ]
      ]

  -- After `provision_local` has returned, each declared database that had no address has the one of
  -- its local database, whichever names share its variable, and each that had one keeps it.
  pub provision_local-dsn :
      (names : List Text) (w w' : Local M) (name : Text)
      → provision_local M fuel names w ≡ (some (ok tt), w')
      → Elem name names
      → dsn w'.env name ≡ (if is_missing w.env name then ok (local_dsn name) else dsn w.env name)
  unfolding provision_local dsn
  provision_local-dsn names w w' name h there =
      elim (Bool-cases (is_empty (keep (is_missing w.env) names))) [
        | inl nothing ↦
            (let absent : is_missing w.env name ≡ false =
                elim (Bool-cases (is_missing w.env name)) [
                  | inr f ↦ f
                  | inl t ↦ absurd (
                      false≢true (
                        sym (
                          Elem-is_empty name (keep (is_missing w.env) names)
                            ((Elem-keep (is_missing w.env) name names).1 (there, t)))
                        ∙ nothing))
                ] in
              rw absent (ap (λ r. dsn r.1.env name) (sym (rw nothing at h))))
        | inr some_missing ↦
            let (_, _, rest) =
              proceed-ok (on_machine M fuel (ensure_postgres M fuel) w) _ tt w'
                (rw some_missing at h) in
            elim (Bool-cases (is_missing w.env name)) [
              | inl missing ↦ rw missing (
                  dsn-set w'.env name (local_dsn name) (
                    each-set (keep (is_missing w.env) names) _ w' name rest
                      ((Elem-keep (is_missing w.env) name names).1 (there, missing))))
              | inr present ↦ rw present (
                  present-kept names (on_machine M fuel (ensure_postgres M fuel) w).1 w' name rest
                    present)
            ]
      ]
