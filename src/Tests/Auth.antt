-- ===== src/Tests/Auth.antt =====
-- `vignemale_cli/auth.py`.
use vignemale.Cli.Auth.{
  Answer, Credentials, Desk, cloud_url, config_dir, credentials_path, device_code_of, int_of,
  load_token, login_times, post_json, read_answer, refusal, refused, replied, save_token, verdict,
}
use vignemale.Cli.Auth.Flow.{await_approval, await_token, login, settle, start_login}
use vignemale.Cli.Auth.Login.{Turns, await_token-Ends}
use vignemale.Cli.Auth.Store.{LoggedIn, Stored, login-stored}
use vignemale.Cli.Poll.{Ends}
use vignemale.Datamodel.Table.Crud.{find_field}
use vignemale.Prelude.{
  Option, [], ap, arith, if◌then◌else◌, list_beq, nat_eq, none, opt_eq, pair_eq, refl, some, sym, ℕ,
  ◌+◌, ◌==◌, ◌≡◌,
}
use vignemale.Prelude.Text.{Text, codes, drop_while, strip_right, text_eq}
use vignemale.Python.{Fields, Result, end, field, int, null, ok, pos, str, truthy}
use vignemale.Python.Env.{get_env}

-- A panel that approves at the second request; the state is the clock, the number of requests and
-- the stored credentials.
abbrev DeskState : Type 0
DeskState = ℕ × (ℕ × Option Credentials)

abbrev code_reply : Fields
code_reply =
    field (codes "device_code") (str (codes "dc")) (field (codes "interval") (int (pos 2)) end)

abbrev token_reply : Fields
token_reply = field (codes "access_token") (str (codes "tok")) end

abbrev pending_reply : Fields
pending_reply = field (codes "error") (str (codes "authorization_pending")) end

abbrev load_reply : Text → Result Fields
load_reply body =
    if body == codes "code"
    then ok code_reply
    else if body == codes "wait"
    then ok pending_reply
    else ok token_reply

abbrev answer_of : ℕ → Answer
answer_of n =
    if n == 0
    then replied 200 (codes "code")
    else if n == 1
    then refused 400 (codes "wait")
    else replied 200 (codes "token")

abbrev desk : Desk
desk = record {
  State = DeskState;
  clock = λ s. s.0;
  sleep = λ n s. (s.0 + n, s.1);
  post = λ url d s. (answer_of s.1.0, (s.0, (s.1.0 + 1, s.1.1)));
  load = load_reply;
  open_browser = λ url s. s;
  make_dirs = λ p s. (ok tt, s);
  store = λ p c s. (ok tt, (s.0, (s.1.0, some c)));
  protect = λ p s. (ok tt, s);
  remove = λ p s. (s.0, (s.1.0, none));
  stored = λ p s. s.1.1;
}

desk-Turns : Turns desk
desk-Turns = record { moves = λ n s. omega arith; goes = λ url d s. omega arith }

desk-Stored : Stored desk
desk-Stored = record { holds = λ p c s s' h. ap (λ r. r.1.1.1) (sym h); same = λ p s. refl }

abbrev at_start : DeskState
at_start = (100, (0, none))

abbrev default_url : Text
default_url = codes "https://cloud.vignemale.dev"

abbrev granted : Credentials
granted = record { cloud = default_url; token = str (codes "tok") }

login_runs : login desk [] (codes "/home") 4 at_start ≡ (some (ok tt), (104, (3, some granted)))
unfolding login start_login await_approval await_token settle verdict refusal device_code_of
    login_times int_of post_json read_answer save_token cloud_url config_dir credentials_path
    strip_right drop_while truthy find_field list_beq get_env
login_runs = refl

login-stored_example :
    LoggedIn (cloud_url []) (load_token desk [] (codes "/home") (104, (3, some granted)))
login-stored_example =
    login-stored desk desk-Stored [] (codes "/home") 4 at_start (104, (3, some granted)) login_runs

await_token-Ends_example :
    Ends (await_token desk [] (codes "/home") default_url null 700 601 (pos 5) at_start)
await_token-Ends_example =
    await_token-Ends desk desk-Turns [] (codes "/home") default_url null 700 600 5 at_start
      (omega arith) (omega arith)
