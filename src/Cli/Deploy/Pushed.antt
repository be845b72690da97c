-- ===== src/Cli/Deploy/Pushed.antt =====
-- When `vignemale deploy` succeeds.
use vignemale.Cli.Auth.{Credentials}
use vignemale.Cli.Deploy.{
  Repo, app_name, deploy, git_base, push_app, push_command, push_url, token_text,
}
use vignemale.Prelude.{
  Bool-cases, Option-cases, [], ap, arith, inl, inr, nat_eq, opt_eq, or_else, pair_eq, refl, some,
  sym, true, ℕ, ◌==◌, ◌∙◌, ◌≡◌, ◌≢◌,
}
use vignemale.Prelude.Text.{Text, codes, text_eq}
use vignemale.Python.Env.{Env, get_env}
use vignemale.Python.Path.{join_path}

one-ne-zero : ◌≢◌ {A = ℕ} 1 0
one-ne-zero h = omega arith

module _ (R : Repo) (env : Env) where
  push-ok :
      (path : Text) (creds : Credentials) (base : Text) (s : R.State)
      → (push_app R env path creds base s).0.0 ≡ 0
      → (R.is_dir (join_path path (codes ".git")) s ≡ true)
        × ((R.run
              (push_command R env path
                (push_url (R.urlsplit base) (token_text R env creds.token) (app_name R env path s)))
              s).0.0
            ≡ 0)
  unfolding push_app
  push-ok path creds base s h =
      let code =
        (R.run
          (push_command R env path
            (push_url (R.urlsplit base) (token_text R env creds.token) (app_name R env path s)))
          s).0.0 in
      elim (Bool-cases (R.is_dir (join_path path (codes ".git")) s)) [
        | inr absent ↦ absurd (one-ne-zero (rw absent at h))
        | inl there ↦ elim (Bool-cases (code == 0)) [
          | inl pushed ↦ (there, (nat_eq.beq_iff code 0).0 pushed)
          | inr failing ↦ absurd (one-ne-zero (rw failing at (rw there at h)))
        ]
      ]

  git_base-some :
      (creds : Credentials) (s : R.State)
      → R.load_token s ≡ some creds
      → or_else (git_base R env s) []
        ≡ or_else (get_env (codes "VIGNEMALE_GIT_URL") env) creds.cloud
  unfolding git_base
  git_base-some creds s e = rw (e, git_base) refl

  -- `vignemale deploy` has exit code 0 only if credentials are stored, the directory is a Git
  -- repository, and Git has pushed HEAD to main with code 0, to the URL of the stored token.
  pub deploy-pushed :
      (path : Text) (s : R.State)
      → (deploy R env path s).0.0 ≡ 0
      → (creds : Credentials) × (R.load_token s ≡ some creds)
        × (R.is_dir (join_path path (codes ".git")) s ≡ true)
        × ((R.run
              (push_command R env path (
                push_url
                  (R.urlsplit (or_else (get_env (codes "VIGNEMALE_GIT_URL") env) creds.cloud))
                  (token_text R env creds.token)
                  (app_name R env path s)))
              s).0.0
            ≡ 0)
  unfolding deploy
  deploy-pushed path s h = elim (Option-cases (R.load_token s)) [
    | inl e ↦ absurd (one-ne-zero (rw (e, deploy) at h))
    | inr (creds, e) ↦
        let (there, pushed) =
          push-ok path creds (or_else (git_base R env s) []) s (rw (e, deploy) at h) in
        (
          creds,
          e,
          there,
          ap
                (λ base.
                  (R.run
                    (push_command R env path (
                      push_url (R.urlsplit base) (token_text R env creds.token)
                        (app_name R env path s)))
                    s).0.0)
                (sym (git_base-some creds s e))
              ∙ pushed,
        )
  ]
