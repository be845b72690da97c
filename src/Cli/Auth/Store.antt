-- ===== src/Cli/Auth/Store.antt =====
-- What a login leaves in the file of credentials.
use mathlib.Core.Option.{none-ne-some, some-injective}
use vignemale.Cli.Auth.{
  Credentials, Desk, Verdict, approved, awaiting, client_id, cloud_url, config_dir,
  credentials_path, denied, device_code_of, entry, later, load_token, login_times, post_json,
  refusal, save_token, slower, token_request, verdict,
}
use vignemale.Cli.Auth.Flow.{await_approval, await_from, await_token, login, settle, start_login}
use vignemale.Cli.Poll.{Outcome, lifted, proceed-ok}
use vignemale.Datamodel.Table.{reply}
use vignemale.Prelude.{
  Bool-cases, Option, Option-cases, ap, arith, inl, inr, ltb, nat_eq, opt_eq, pair_eq, refl, some,
  suc, sym, true, zero, ℕ, ◌&&◌, ◌++◌, ◌+◌, ◌==◌, ◌∙◌, ◌≡◌, ◌≢◌,
}
use vignemale.Prelude.Text.{Text, codes, text_eq}
use vignemale.Python.{
  Fields, Value, and_then-ok, bool, dict, end, field, int, list, model, negsuc, null, ok, pos,
  raise-ne-ok, str, truthy, tuple, ℤ,
}
use vignemale.Python.Env.{Env}

pub record Stored (D : Desk) : Type 0 where
  -- what is written is there
  pub holds :
      (p : Text) (c : Credentials) (s s' : D.State)
      → D.store p c s ≡ (ok tt, s')
      → D.stored p s' ≡ some c
  -- a change of mode keeps it
  pub same : (p : Text) (s : D.State) → D.stored p (D.protect p s).1 ≡ D.stored p s

-- The credentials of a login at this panel.
abbrev pub LoggedIn : Text → Option Credentials → Type 0
LoggedIn url c =
    (token : Value) × (truthy token ≡ true) × (c ≡ some (record { cloud = url; token = token }))

module _ (D : Desk) (K : Stored D) (env : Env) (home : Text) where
  save_token-stored :
      (url path : Text) (token : Value) (s s' : D.State)
      → save_token D env home url token s ≡ (ok path, s')
      → load_token D env home s' ≡ some (record { cloud = url; token = token })
  unfolding save_token load_token
  save_token-stored url path token s s' h =
      let (_, made, h1) = and_then-ok (D.make_dirs (config_dir env home) s) _ path s' h in
      let c : Credentials = record { cloud = url; token = token } in
      let s1 = (D.make_dirs (config_dir env home) s).1 in
      let (_, wrote, h2) = and_then-ok (D.store (credentials_path env home) c s1) _ path s' h1 in
      let s2 = (D.store (credentials_path env home) c s1).1 in
      let (_, done, h3) = and_then-ok (D.protect (credentials_path env home) s2) _ path s' h2 in
      ap (λ r. D.stored (credentials_path env home) r.1) (sym h3)
      ∙ K.same (credentials_path env home) s2
      ∙ K.holds (credentials_path env home) c s1 s2 (λ i. (wrote i, s2))

  settle-stored :
      (base : Text) (v : Verdict) (n : ℕ) (again : ℤ → D.State → Outcome (Unit {0}) × D.State)
      (s s' : D.State)
      → ((token : Value) → v ≡ approved token → truthy token ≡ true)
      → ((i : ℤ) → again i s ≡ (some (ok tt), s') → LoggedIn base (load_token D env home s'))
      → settle D env home base v n again s ≡ (some (ok tt), s')
      → LoggedIn base (load_token D env home s')
  unfolding settle
  settle-stored base (approved token) n again s s' granted rest h =
      let x = save_token D env home base token s in
      let (path, saved, ends) = proceed-ok (lifted x) (λ _ u. (some (ok tt), u)) tt s' h in
      (
        token,
        granted token refl,
        save_token-stored base path token s s' (λ i. (some-injective _ _ saved i, (ends i).1)),
      )
  settle-stored base awaiting n again s s' granted rest h = rest (pos n) h
  settle-stored base slower n again s s' granted rest h = rest (pos (n + 5)) h
  settle-stored base (denied e) n again s s' granted rest h =
      absurd (raise-ne-ok (some-injective _ _ (ap (λ r. r.0) h)))

  awaiting-ne-approved : (token : Value) → awaiting ≢ approved token
  awaiting-ne-approved token h = cc

  slower-ne-approved : (token : Value) → slower ≢ approved token
  slower-ne-approved token h = cc

  denied-ne-approved : (v token : Value) → denied v ≢ approved token
  denied-ne-approved v token h = cc

  refusal-denies : (v token : Value) → refusal v ≢ approved token
  unfolding refusal
  refusal-denies (str e) token h = elim (Bool-cases (e == codes "authorization_pending")) [
    | inl a ↦ awaiting-ne-approved token (rw a at h)
    | inr a ↦ elim (Bool-cases (e == codes "slow_down")) [
      | inl b ↦ slower-ne-approved token (rw (a, b) at h)
      | inr b ↦ denied-ne-approved (str e) token (rw (a, b) at h)
    ]
  ]
  refusal-denies null token h = denied-ne-approved null token h
  refusal-denies (bool b) token h = denied-ne-approved (bool b) token h
  refusal-denies (int n) token h = denied-ne-approved (int n) token h
  refusal-denies (list vs) token h = denied-ne-approved (list vs) token h
  refusal-denies (tuple vs) token h = denied-ne-approved (tuple vs) token h
  refusal-denies (dict d) token h = denied-ne-approved (dict d) token h
  refusal-denies (model c d) token h = denied-ne-approved (model c d) token h

  verdict-approved :
      (status : ℕ) (t : Fields) (token : Value)
      → verdict status t ≡ approved token
      → truthy token ≡ true
  unfolding verdict
  verdict-approved status t token h =
      elim (Bool-cases (ltb status 400 && truthy (entry (codes "access_token") t))) [
        | inr left ↦ absurd (refusal-denies (entry (codes "error") t) token (rw left at h))
        | inl taken ↦
            let same : approved (entry (codes "access_token") t) ≡ approved token = rw taken at h in
            let given : entry (codes "access_token") t ≡ token = cc in
            ap truthy (sym given) ∙ ground arith
      ]

  await_token-stored :
      (base : Text) (device_code : Value) (deadline fuel : ℕ) (interval : ℤ) (s s' : D.State)
      → await_token D env home base device_code deadline fuel interval s ≡ (some (ok tt), s')
      → LoggedIn base (load_token D env home s')
  unfolding await_token
  await_token-stored base device_code deadline zero interval s s' h =
      absurd (none-ne-some _ (ap (λ r. r.0) h))
  await_token-stored base device_code deadline (suc fuel) (negsuc n) s s' h =
      elim (Bool-cases (ltb (D.clock s) deadline)) [
        | inl early ↦ absurd (raise-ne-ok (some-injective _ _ (ap (λ r. r.0) (rw early at h))))
        | inr late ↦ absurd (raise-ne-ok (some-injective _ _ (ap (λ r. r.0) (rw late at h))))
      ]
  await_token-stored base device_code deadline (suc fuel) (pos n) s s' h =
      elim (Bool-cases (ltb (D.clock s) deadline)) [
        | inr late ↦ absurd (raise-ne-ok (some-injective _ _ (ap (λ r. r.0) (rw late at h))))
        | inl early ↦
            let again = await_token D env home base device_code deadline fuel in
            let x =
              post_json D env home (base ++ codes "/api/auth/device/token")
                (token_request D env home device_code) (D.sleep n s) in
            let (reply, _, rest) =
              proceed-ok (lifted x) (λ r u. settle D env home base (verdict r.0 r.1) n again u) tt
                s' (rw early at h) in
            settle-stored base (verdict reply.0 reply.1) n again x.1 s'
              (verdict-approved reply.0 reply.1)
              (λ i. await_token-stored base device_code deadline fuel i x.1 s') rest
      ]

  await_approval-stored :
      (base : Text) (device_code : Value) (d : Fields) (fuel : ℕ) (s s' : D.State)
      → await_approval D env home base device_code d fuel s ≡ (some (ok tt), s')
      → LoggedIn base (load_token D env home s')
  unfolding await_approval
  await_approval-stored base device_code d fuel s s' h =
      let (times, _, rest) =
        proceed-ok (some (login_times d), s) (await_from D env home base device_code d fuel) tt s'
          h in
      await_token-stored base device_code (later (D.clock s) times.1) fuel times.0
        (D.open_browser _ s) s' rest

  start_login-stored :
      (base : Text) (status : ℕ) (d : Fields) (fuel : ℕ) (s s' : D.State)
      → start_login D env home base status d fuel s ≡ (some (ok tt), s')
      → LoggedIn base (load_token D env home s')
  unfolding start_login
  start_login-stored base status d fuel s s' h = elim (Option-cases (device_code_of status d)) [
    | inl e ↦ absurd (raise-ne-ok (some-injective _ _ (ap (λ r. r.0) (rw (e, start_login) at h))))
    | inr (code, e) ↦ await_approval-stored base code d fuel s s' (rw (e, start_login) at h)
  ]

  -- After a login that has returned, the stored credentials are of the panel's address and a token
  -- that is not empty, where the file holds what is written and a change of its mode keeps it.
  pub login-stored :
      (fuel : ℕ) (s s' : D.State)
      → login D env home fuel s ≡ (some (ok tt), s')
      → LoggedIn (cloud_url env) (load_token D env home s')
  unfolding login
  login-stored fuel s s' h =
      let base = cloud_url env in
      let x =
        post_json D env home (base ++ codes "/api/auth/device/code")
          (field (codes "client_id") client_id end) s in
      let (reply, _, rest) =
        proceed-ok (lifted x) (λ r u. start_login D env home base r.0 r.1 fuel u) tt s' h in
      start_login-stored base reply.0 reply.1 fuel x.1 s' rest
