-- ===== src/Cli/Auth/Flow.antt =====
-- `login` of `vignemale_cli/auth.py`: the request of a code, and the wait for the approval.
use vignemale.Cli.Auth.{
  Desk, Verdict, approved, awaiting, client_id, cloud_url, denied, device_code_of, either, entry,
  later, login_times, page_text, post_json, save_token, slower, token_request, verdict,
}
use vignemale.Cli.Poll.{Outcome, lifted, proceed}
use vignemale.Datamodel.Table.Crud.{find_field}
use vignemale.Prelude.{if◌then◌else◌, list_beq, ltb, none, some, suc, zero, ℕ, ◌++◌, ◌+◌}
use vignemale.Prelude.Text.{Text, codes}
use vignemale.Python.{
  Exception, Fields, Value, end, field, negsuc, ok, pos, raise, str, system_exit, truthy,
  value_error, ℤ,
}
use vignemale.Python.Env.{Env}

module _ (D : Desk) (env : Env) (home : Text) where
  -- What follows a verdict; `again` is the rest of the loop. The refusal is left without its text.
  unfoldable pub settle :
      Text
      → Verdict
      → ℕ
      → (ℤ → D.State → Outcome (Unit {0}) × D.State)
      → D.State
      → Outcome (Unit {0}) × D.State
  unfolding save_token
  settle base (approved token) n again s =
      proceed (lifted (save_token D env home base token s)) (λ _ s'. (some (ok tt), s'))
  settle base awaiting n again s = again (pos n) s
  settle base slower n again s = again (pos (n + 5)) s
  settle base (denied e) n again s =
      (some (raise (system_exit (codes "vignemale: login refused"))), s)

  abbrev pub timed_out : Exception
  timed_out = system_exit (codes "vignemale: approval timed out. Run `vignemale login` again.")

  -- The loop of `login`.
  unfoldable pub await_token : Text → Value → ℕ → ℕ → ℤ → D.State → Outcome (Unit {0}) × D.State
  unfolding post_json settle verdict
  await_token base device_code deadline zero interval s = (none, s)
  await_token base device_code deadline (suc fuel) (negsuc n) s =
      if ltb (D.clock s) deadline
      then (some (raise (value_error (codes "sleep length must be non-negative"))), s)
      else (some (raise timed_out), s)
  await_token base device_code deadline (suc fuel) (pos n) s =
      let again = await_token base device_code deadline fuel in
      let turn =
        proceed
          (lifted (
            post_json D env home (base ++ codes "/api/auth/device/token")
              (token_request D env home device_code) (D.sleep n s)))
          (λ reply s'. settle base (verdict reply.0 reply.1) n again s') in
      if ltb (D.clock s) deadline then turn else (some (raise timed_out), s)

  -- `login()` after the code and the times are there.
  abbrev pub await_from : Text → Value → Fields → ℕ → ℤ × ℤ → D.State → Outcome (Unit {0}) × D.State
  await_from base device_code d fuel times s =
      let page = either (entry (codes "verification_uri") d) (str (base ++ codes "/device")) in
      let complete = either (entry (codes "verification_uri_complete") d) page in
      await_token base device_code (later (D.clock s) times.1) fuel times.0
        (D.open_browser (page_text complete) s)

  -- `login()` after the code is there.
  unfoldable pub await_approval : Text → Value → Fields → ℕ → D.State → Outcome (Unit {0}) × D.State
  unfolding await_token login_times truthy find_field list_beq
  await_approval base device_code d fuel s =
      proceed (some (login_times d), s) (await_from base device_code d fuel)

  unfoldable pub start_login : Text → ℕ → Fields → ℕ → D.State → Outcome (Unit {0}) × D.State
  unfolding device_code_of await_approval
  start_login base status d fuel s = elim (device_code_of status d) [
    | none ↦ (some (raise (system_exit (codes "vignemale: code request failed"))), s)
    | some device_code ↦ await_approval base device_code d fuel s
  ]

  -- `login()`
  unfoldable pub login : ℕ → D.State → Outcome (Unit {0}) × D.State
  unfolding post_json start_login cloud_url
  login fuel s =
      let base = cloud_url env in
      proceed
        (lifted (
          post_json D env home (base ++ codes "/api/auth/device/code")
            (field (codes "client_id") client_id end) s))
        (λ reply s'. start_login base reply.0 reply.1 fuel s')
