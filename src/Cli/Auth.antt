-- ===== src/Cli/Auth.antt =====
-- `vignemale_cli/auth.py`: the credentials of the command line. The network, JSON, the files, the
-- browser and the clock are parameters; the messages are left out. Times are in seconds, and the
-- wait for the approval runs on fuel.
pub mod Flow
pub mod Login
pub mod Store
use vignemale.Api.Serving.{parse_int}
use vignemale.Cli.Poll.{Outcome, lifted, proceed}
use vignemale.Datamodel.Table.{reply}
use vignemale.Datamodel.Table.Crud.{find_field}
use vignemale.Prelude.{
  Option, [], false, if◌then◌else◌, is_empty, list_beq, ltb, nat_eq, none, opt_eq, or_else, pair_eq,
  some, suc, true, zero, ℕ, ◌&&◌, ◌++◌, ◌+◌, ◌-◌, ◌==◌,
}
use vignemale.Prelude.Dict.{lookup}
use vignemale.Prelude.Text.{Text, codes, strip_right, text_eq}
use vignemale.Python.{
  Exception, Fields, Result, Value, and_then, bool, end, field, int, negsuc, null, ok, pos, raise,
  str, system_exit, truthy, type_error, value_error, ℤ, ◌>>=◌, ◌>>◌,
}
use vignemale.Python.Env.{Env, get_env}
use vignemale.Python.Path.{join_path}

-- What `urlopen` gives: a response with its body, an `HTTPError` with its body, or another exception.
pub data Answer : Type 0 where
  replied : ℕ → Text → Answer
  refused : ℕ → Text → Answer
  broken : Exception → Answer

-- The content of the file of credentials.
pub record Credentials : Type 0 where
  pub cloud : Text
  pub token : Value

pub record Desk : Type 1 where
  pub State : Type 0
  pub clock : State → ℕ
  pub sleep : ℕ → State → State
  -- a POST with a JSON object
  pub post : Text → Fields → State → Answer × State
  -- json.loads of a body; the panel answers with JSON objects
  pub load : Text → Result Fields
  pub open_browser : Text → State → State
  -- os.makedirs, json.dump to a file, os.chmod(path, 0o600) and os.remove
  pub make_dirs : Text → State → Result (Unit {0}) × State
  pub store : Text → Credentials → State → Result (Unit {0}) × State
  pub protect : Text → State → Result (Unit {0}) × State
  pub remove : Text → State → State
  -- what a file holds; none if it is not there or is not JSON
  pub stored : Text → State → Option Credentials

abbrev pub client_id : Value
client_id = str (codes "vignemale-cli")

-- `cloud_url()`
unfoldable pub cloud_url : Env → Text
unfolding strip_right
cloud_url env =
    strip_right (λ c. c == b'/')
      (or_else (lookup (codes "VIGNEMALE_CLOUD_URL") env) (codes "https://cloud.vignemale.dev"))

-- os.path.dirname of the file of credentials; `home` is os.path.expanduser("~").
unfoldable pub config_dir : Env → Text → Text
unfolding get_env join_path
config_dir env home =
    or_else (get_env (codes "VIGNEMALE_CONFIG_DIR") env) (join_path home (codes ".vignemale"))

-- `credentials_path()`
unfoldable pub credentials_path : Env → Text → Text
unfolding config_dir join_path
credentials_path env home = join_path (config_dir env home) (codes "credentials")

abbrev pub entry : Text → Fields → Value
entry k d = or_else (find_field k d) null

-- `a or b`
abbrev pub either : Value → Value → Value
either a b = if truthy a then a else b

-- `int(v)`
unfoldable pub int_of : Value → Result ℤ
unfolding parse_int
int_of (int n) = ok n
int_of (bool true) = ok (pos 1)
int_of (bool false) = ok (pos 0)
int_of (str s) = elim (parse_int s) [
  | none ↦ raise (value_error (codes "invalid literal for int() with base 10"))
  | some n ↦ ok n
]
int_of _ = raise (type_error (codes "int() argument must be a string or a real number"))

-- now + n
abbrev pub later : ℕ → ℤ → ℕ
later now (pos n) = now + n
later now (negsuc n) = now - (n + 1)

-- What the loop makes of a reply: the token, another wait, a slower wait, or the refusal.
pub data Verdict : Type 0 where
  approved : Value → Verdict
  awaiting slower : Verdict
  denied : Value → Verdict

-- The verdict on the `error` of a reply.
unfoldable pub refusal : Value → Verdict
unfolding list_beq
refusal (str e) =
    if e == codes "authorization_pending"
    then awaiting
    else if e == codes "slow_down"
    then slower
    else denied (str e)
refusal v = denied v

unfoldable pub verdict : ℕ → Fields → Verdict
unfolding truthy find_field refusal list_beq
verdict status t =
    if ltb status 400 && truthy (entry (codes "access_token") t)
    then approved (entry (codes "access_token") t)
    else refusal (entry (codes "error") t)

-- The device code of a reply that is not an error.
unfoldable pub device_code_of : ℕ → Fields → Option Value
unfolding find_field list_beq
device_code_of status d = if ltb status 400 then find_field (codes "device_code") d else none

abbrev pub page_text : Value → Text
page_text (str s) = s
page_text _ = []

-- The interval between two requests, and the seconds until the code expires.
unfoldable pub login_times : Fields → Result (ℤ × ℤ)
unfolding int_of find_field list_beq
login_times d = do
  interval ← int_of (or_else (find_field (codes "interval") d) (int (pos 5)))
  expires ← int_of (or_else (find_field (codes "expires_in") d) (int (pos 600)))
  ok (interval, expires)

module _ (D : Desk) (env : Env) (home : Text) where
  abbrev body_or_empty : Text → Text
  body_or_empty body = if is_empty body then codes "{}" else body

  abbrev parsed_or_empty : Result Fields → Fields
  parsed_or_empty (ok d) = d
  parsed_or_empty (raise e) = end

  unfoldable pub read_answer : Answer → Result (ℕ × Fields)
  read_answer (replied status body) = D.load (body_or_empty body) >>= λ d. ok (status, d)
  read_answer (refused status body) = ok (status, parsed_or_empty (D.load (body_or_empty body)))
  read_answer (broken e) = raise e

  -- `_post(url, data)`: the status and the object.
  unfoldable pub post_json : Text → Fields → D.State → Result (ℕ × Fields) × D.State
  unfolding read_answer
  post_json url fields s = let (answer, s') = D.post url fields s in (read_answer answer, s')

  -- `save_token(url, token)`
  unfoldable pub save_token : Text → Value → D.State → Result Text × D.State
  unfolding credentials_path config_dir
  save_token url token s =
      let path = credentials_path env home in
      and_then (D.make_dirs (config_dir env home) s) (λ _ s1.
        and_then (D.store path (record { cloud = url; token = token }) s1)
          (λ _ s2. and_then (D.protect path s2) (λ _ s3. (ok path, s3))))

  -- `load_token()`
  unfoldable pub load_token : D.State → Option Credentials
  unfolding credentials_path
  load_token s = D.stored (credentials_path env home) s

  -- `logout()`
  unfoldable pub logout : D.State → D.State
  unfolding credentials_path
  logout s = D.remove (credentials_path env home) s

  abbrev pub token_request : Value → Fields
  token_request device_code = field (codes "device_code") device_code (
      field (codes "client_id") client_id (
        field (codes "grant_type") (str (codes "urn:ietf:params:oauth:grant-type:device_code"))
          end))
