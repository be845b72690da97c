-- ===== src/Cli/Deploy.antt =====
-- `vignemale_cli/deploy.py`: the push of an app to the control plane. Git, the credentials, the
-- reading of `pyproject.toml` and `urlsplit` are parameters; the messages are left out, but for the
-- error text of Git.
pub mod Pushed
use vignemale.Cli.Auth.{Credentials}
use vignemale.Prelude.{
  Bool, List, Option, [], contains, false, if◌then◌else◌, is_empty, length, ltb, nat_eq, none, not,
  opt_eq, or_else, pair_eq, some, suc, true, zero, ℕ, ◌%◌, ◌++◌, ◌+◌, ◌-◌, ◌/◌, ◌==◌, ◌||◌, ◌∷◌,
}
use vignemale.Prelude.Text.{Text, codes, is_alnum, is_space, starts_with, strip_both, text_eq}
use vignemale.Python.{Value, str}
use vignemale.Python.Env.{Env, get_env}
use vignemale.Python.Path.{basename, join_path}

pub record Repo : Type 1 where
  pub State : Type 0
  pub abspath : Text → Text
  pub is_dir : Text → State → Bool
  -- auth.load_token()
  pub load_token : State → Option Credentials
  -- [tool.vignemale].app of the pyproject.toml of a directory, if it can be read
  pub declared_app : Text → State → Option Text
  -- urllib.parse.urlsplit: the scheme and the netloc
  pub urlsplit : Text → Text × Text
  -- a command: its exit code and what it wrote on standard error
  pub run : List Text → State → (ℕ × Text) × State

abbrev hex_digit : ℕ → ℕ
hex_digit n = if ltb n 10 then b'0' + n else b'A' + (n - 10)

abbrev pub is_unreserved : ℕ → Bool
is_unreserved c = is_alnum c || contains c (codes "_.-~")

-- urllib.parse.quote(s, safe='') of ASCII
unfoldable pub quote_url : Text → Text
quote_url [] = []
quote_url (c ∷ s) =
    let rest = quote_url s in
    if is_unreserved c then c ∷ rest else b'%' ∷ hex_digit (c / 16) ∷ hex_digit (c % 16) ∷ rest

-- `_push_url(base, token, app)`, of the parts of the base
unfoldable pub push_url : Text × Text → Text → Text → Text
unfolding quote_url
push_url (scheme, netloc) token app =
    (if is_empty scheme then [] else scheme ++ (b':' ∷ []))
    ++ (codes "//vignemale:"
        ++ (quote_url token ++ (b'@' ∷ netloc ++ (b'/' ∷ app ++ codes ".git"))))

-- s.replace(t, r) of a text that is not empty, on fuel: a text of n characters needs n + 1.
unfoldable pub replace_from : Text → Text → ℕ → Text → Text
unfolding starts_with
replace_from t r zero s = s
replace_from t r (suc fuel) [] = []
replace_from t r (suc fuel) (c ∷ s) = elim (starts_with (c ∷ s) t) [
  | true ↦ r ++ replace_from t r fuel (drop_chars (length t) (c ∷ s))
  | false ↦ c ∷ replace_from t r fuel s
]
  where
    drop_chars : ℕ → Text → Text
    drop_chars zero s = s
    drop_chars (suc n) [] = []
    drop_chars (suc n) (c ∷ s) = drop_chars n s

-- The error text that is shown.
unfoldable pub redacted_error : Text → Text → Text
unfolding replace_from strip_both
redacted_error token text =
    strip_both is_space (replace_from token (codes "***") (length text + 1) text)

module _ (R : Repo) (env : Env) where
  -- `_git_base()`; `cloud_url` of the credentials is not empty where the login wrote it.
  unfoldable pub git_base : R.State → Option Text
  unfolding get_env
  git_base s = elim (R.load_token s) [
    | none ↦ none
    | some creds ↦ some (or_else (get_env (codes "VIGNEMALE_GIT_URL") env) creds.cloud)
  ]

  -- `_app_name(path)`
  unfoldable pub app_name : Text → R.State → Text
  unfolding basename
  app_name path s = elim (R.declared_app path s) [
    | some (c ∷ app) ↦ c ∷ app
    | _ ↦ basename (R.abspath path)
  ]

  abbrev pub push_command : Text → Text → List Text
  push_command path url =
      codes "git" ∷ codes "-C" ∷ path ∷ codes "push" ∷ url ∷ codes "HEAD:main" ∷ []

  abbrev pub token_text : Value → Text
  token_text (str t) = t
  token_text _ = []

  -- `deploy` once the credentials and the base are there.
  unfoldable pub push_app : Text → Credentials → Text → R.State → (ℕ × Text) × R.State
  unfolding app_name push_url redacted_error join_path
  push_app path creds base s =
      let token = token_text creds.token in
      let url = push_url (R.urlsplit base) token (app_name path s) in
      let ((code, text), s') = R.run (push_command path url) s in
      if not (R.is_dir (join_path path (codes ".git")) s)
      then ((1, []), s)
      else if code == 0
      then ((0, []), s')
      else ((1, redacted_error token text), s')

  -- `deploy(path)`: the exit code, and the error text of Git that is shown.
  unfoldable pub deploy : Text → R.State → (ℕ × Text) × R.State
  unfolding git_base push_app
  deploy path s = elim (R.load_token s) [
    | none ↦ ((1, []), s)
    | some creds ↦ push_app path creds (or_else (git_base s) []) s
  ]
