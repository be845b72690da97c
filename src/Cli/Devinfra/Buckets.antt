-- ===== src/Cli/Devinfra/Buckets.antt =====
-- The buckets that `provision_buckets` creates, and those that `Bucket` reads.
use mathlib.Core.Bool.{false≢true}
use mathlib.Core.Option.{some-injective}
use mathlib.Core.Path.{subst}
use vignemale.Backends.{S3Config, bucket_config, cloud_name}
use vignemale.Cli.Devinfra.{
  Machine, core_answer, ensure_minio, minio_config, minio_endpoint, minio_key, sanitize,
}
use vignemale.Cli.Devinfra.Provision.{
  Local, create_buckets, on_machine, provision_buckets, s3_defaults, set_default,
}
use vignemale.Cli.Poll.{proceed-ok}
use vignemale.Prelude.{
  All, Elem, List, Option-cases, [], ap, false, if◌then◌else◌, inl, inr, is_empty, is_some,
  list_beq, nat_eq, opt_eq, or_else, pair_eq, refl, some, sym, ℕ, ◌++◌, ◌==◌, ◌||◌, ◌∙◌, ◌∷◌, ◌≡◌,
  ◌⊎◌,
}
use vignemale.Prelude.Dict.{has_key, lookup, lookup-insert}
use vignemale.Prelude.Text.{Text, codes, text_eq}
use vignemale.Python.{ok, ok-injective, raise-ne-ok}
use vignemale.Python.Env.{Env, env_suffix, get_env}

-- What the store promises of the creation of buckets.
pub record Stores (M : Machine) : Type 1 where
  pub Made : S3Config → M.State → Type 0
  -- a creation that succeeds makes the bucket
  pub made :
      (cfg : S3Config) (s s' : M.State)
      → M.bucket_op cfg (codes "create") s ≡ (inr tt, s')
      → Made cfg s'
  -- creating another does not remove it
  pub kept :
      (cfg other : S3Config) (s : M.State)
      → Made cfg s
      → Made cfg (M.bucket_op other (codes "create") s).1

abbrev pub s3_keys : List Text
s3_keys =
    codes "VIGNEMALE_S3_ENDPOINT"
    ∷ codes "VIGNEMALE_S3_REGION"
    ∷ codes "VIGNEMALE_S3_ACCESS_KEY"
    ∷ codes "VIGNEMALE_S3_SECRET_KEY"
    ∷ []

answer-inv :
    {A S : Type 0} (x : (Text ⊎ A) × S) (a : A)
    → (core_answer x).0 ≡ some (ok a)
    → x ≡ (inr a, (core_answer x).1)
answer-inv (inl m, s) a h = absurd (raise-ne-ok (some-injective _ _ h))
answer-inv (inr b, s) a h = λ i. (inr (ok-injective (some-injective _ _ h) i), s)

answer-state : {A S : Type 0} (x : (Text ⊎ A) × S) → (core_answer x).1 ≡ x.1
answer-state (inl m, s) = refl
answer-state (inr b, s) = refl

module _ (M : Machine) (B : Stores M) (fuel : ℕ) where
  lookup-default :
      (j k v : Text) (env : Env)
      → has_key k env ≡ false
      → lookup j (set_default k v env) ≡ (if k == j then some v else lookup j env)
  unfolding set_default
  lookup-default j k v env h = rw h (lookup-insert j k v env)

  default-other :
      (j k v : Text) (env : Env)
      → has_key k env ≡ false
      → (k == j) ≡ false
      → has_key j env ≡ false
      → has_key j (set_default k v env) ≡ false
  default-other j k v env h e unset = rw (lookup-default j k v env h, e) unset

  -- What the defaults say of a variable, where none of the four was there.
  lookup-s3 :
      (j : Text) (env : Env)
      → All (λ k. has_key k env ≡ false) s3_keys
      → lookup j (s3_defaults M fuel env) ≡ (
          if codes "VIGNEMALE_S3_SECRET_KEY" == j
          then some minio_key
          else if codes "VIGNEMALE_S3_ACCESS_KEY" == j
          then some minio_key
          else if codes "VIGNEMALE_S3_REGION" == j
          then some (codes "us-east-1")
          else if codes "VIGNEMALE_S3_ENDPOINT" == j
          then some minio_endpoint
          else lookup j env)
  unfolding s3_defaults list_beq
  lookup-s3 j env unset =
      let e1 = set_default (codes "VIGNEMALE_S3_ENDPOINT") minio_endpoint env in
      let e2 = set_default (codes "VIGNEMALE_S3_REGION") (codes "us-east-1") e1 in
      let e3 = set_default (codes "VIGNEMALE_S3_ACCESS_KEY") minio_key e2 in
      let fresh : (k : Text)
          → (codes "VIGNEMALE_S3_ENDPOINT" == k) ≡ false
          → has_key k env ≡ false
          → has_key k e1 ≡ false =
        λ k e h. default-other k (codes "VIGNEMALE_S3_ENDPOINT") minio_endpoint env unset.0 e h in
      let region = fresh (codes "VIGNEMALE_S3_REGION") refl unset.1.0 in
      let access =
        default-other (codes "VIGNEMALE_S3_ACCESS_KEY") (codes "VIGNEMALE_S3_REGION")
          (codes "us-east-1") e1 region refl
          (fresh (codes "VIGNEMALE_S3_ACCESS_KEY") refl unset.1.1.0) in
      let secret =
        default-other (codes "VIGNEMALE_S3_SECRET_KEY") (codes "VIGNEMALE_S3_ACCESS_KEY") minio_key
          e2 access refl
          (default-other (codes "VIGNEMALE_S3_SECRET_KEY") (codes "VIGNEMALE_S3_REGION")
            (codes "us-east-1") e1 region refl
            (fresh (codes "VIGNEMALE_S3_SECRET_KEY") refl unset.1.1.1.0)) in
      rw
        (
          lookup-default j (codes "VIGNEMALE_S3_SECRET_KEY") minio_key e3 secret,
          lookup-default j (codes "VIGNEMALE_S3_ACCESS_KEY") minio_key e2 access,
          lookup-default j (codes "VIGNEMALE_S3_REGION") (codes "us-east-1") e1 region,
          lookup-default j (codes "VIGNEMALE_S3_ENDPOINT") minio_endpoint env unset.0,
        )
        refl

  config-set :
      (env : Env) (name endpoint region access secret : Text)
      → get_env (codes "VIGNEMALE_S3_ENDPOINT") env ≡ some endpoint
      → lookup (codes "VIGNEMALE_S3_REGION") env ≡ some region
      → lookup (codes "VIGNEMALE_S3_ACCESS_KEY") env ≡ some access
      → lookup (codes "VIGNEMALE_S3_SECRET_KEY") env ≡ some secret
      → bucket_config env name
        ≡ ok (record {
          endpoint = endpoint;
          region = region;
          access_key = access;
          secret_key = secret;
          cloud = cloud_name env name;
        })
  unfolding bucket_config
  config-set env name endpoint region access secret e r a k = rw (e, bucket_config, r, a, k)

  cloud_name-s3 :
      (env : Env) (name : Text)
      → All (λ k. has_key k env ≡ false) s3_keys
      → cloud_name (s3_defaults M fuel env) name ≡ cloud_name env name
  unfolding cloud_name list_beq
  cloud_name-s3 env name unset =
      ap (λ o. or_else o name) (lookup-s3 (codes "VIGNEMALE_BUCKET_" ++ env_suffix name) env unset)

  get_env-some :
      (k : Text) (c : ℕ) (v : Text) (env : Env)
      → lookup k env ≡ some (c ∷ v)
      → get_env k env ≡ some (c ∷ v)
  unfolding get_env
  get_env-some k c v env h = rw h refl

  -- The configuration that a bucket then has.
  config-local :
      (env : Env) (name : Text)
      → All (λ k. has_key k env ≡ false) s3_keys
      → bucket_config (s3_defaults M fuel env) name ≡ ok (minio_config (cloud_name env name))
  unfolding list_beq
  config-local env name unset =
      config-set (s3_defaults M fuel env) name minio_endpoint (codes "us-east-1") minio_key
        minio_key
        (get_env-some (codes "VIGNEMALE_S3_ENDPOINT") _ _ (s3_defaults M fuel env)
          (lookup-s3 (codes "VIGNEMALE_S3_ENDPOINT") env unset))
        (lookup-s3 (codes "VIGNEMALE_S3_REGION") env unset)
        (lookup-s3 (codes "VIGNEMALE_S3_ACCESS_KEY") env unset)
        (lookup-s3 (codes "VIGNEMALE_S3_SECRET_KEY") env unset)
      ∙ ap (λ n. ok (minio_config n)) (cloud_name-s3 env name unset)

  all_kept :
      (names : List Text) (cfg : S3Config) (s s' : M.State)
      → create_buckets M fuel names s ≡ (some (ok tt), s')
      → B.Made cfg s
      → B.Made cfg s'
  unfolding create_buckets
  all_kept [] cfg s s' h m = subst (λ u. B.Made cfg u) (ap (λ r. r.1) h) m
  all_kept (name ∷ names) cfg s s' h m =
      let x = M.bucket_op (minio_config (sanitize name)) (codes "create") s in
      let (_, made, rest) = proceed-ok (core_answer x) _ tt s' h in
      all_kept names cfg (core_answer x).1 s' rest (
        subst (λ u. B.Made cfg u) (sym (answer-state x))
          (B.kept cfg (minio_config (sanitize name)) s m))

  all_made :
      (names : List Text) (name : Text) (s s' : M.State)
      → create_buckets M fuel names s ≡ (some (ok tt), s')
      → Elem name names
      → B.Made (minio_config (sanitize name)) s'
  unfolding create_buckets
  all_made [] name s s' h there = absurd there
  all_made (first ∷ names) name s s' h there =
      let x = M.bucket_op (minio_config (sanitize first)) (codes "create") s in
      let (_, done, rest) = proceed-ok (core_answer x) _ tt s' h in
      elim there [
        | inr m ↦ all_made names name (core_answer x).1 s' rest m
        | inl e ↦ all_kept names (minio_config (sanitize name)) (core_answer x).1 s' rest (
            subst (λ n. B.Made (minio_config (sanitize n)) (core_answer x).1) (sym e)
              (B.made (minio_config (sanitize first)) s (core_answer x).1 (answer-inv x tt done)))
      ]

  absent-none : (k : Text) (env : Env) → has_key k env ≡ false → is_some (get_env k env) ≡ false
  unfolding get_env
  absent-none k env h = elim (Option-cases (lookup k env)) [
    | inl e ↦ rw e refl
    | inr (v, e) ↦ absurd (false≢true (sym h ∙ ap is_some e))
  ]

  goes_on :
      (names : List Text) (name : Text) (env : Env)
      → has_key (codes "VIGNEMALE_S3_ENDPOINT") env ≡ false
      → Elem name names
      → (is_empty names || is_some (get_env (codes "VIGNEMALE_S3_ENDPOINT") env)) ≡ false
  goes_on [] name env h m = absurd m
  goes_on (n ∷ names) name env h m = absent-none (codes "VIGNEMALE_S3_ENDPOINT") env h

  -- After `provision_buckets` has returned, where no variable of the store was set, the bucket that
  -- a declared name stands for in the code has the configuration of the local store and exists
  -- there, if its name in the store is the sanitized name.
  pub provision_buckets-made :
      (names : List Text) (w w' : Local M) (name : Text)
      → All (λ k. has_key k w.env ≡ false) s3_keys
      → provision_buckets M fuel names w ≡ (some (ok tt), w')
      → Elem name names
      → cloud_name w.env name ≡ sanitize name
      → (bucket_config w'.env name ≡ ok (minio_config (sanitize name)))
        × B.Made (minio_config (sanitize name)) w'.machine
  unfolding provision_buckets
  provision_buckets-made names w w' name unset h there same =
      let (_, _, rest) =
        proceed-ok (on_machine M fuel (ensure_minio M fuel) w) _ tt w'
          (rw (goes_on names name w.env unset.0 there) at h) in
      (
        ap (λ r. bucket_config r.1.env name) (sym rest)
            ∙ config-local w.env name unset
            ∙ ap (λ n. ok (minio_config n)) same,
        all_made names name _ w'.machine (λ i. ((rest i).0, (rest i).1.machine)) there,
      )
