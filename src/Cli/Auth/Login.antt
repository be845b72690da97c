-- ===== src/Cli/Auth/Login.antt =====
-- The wait for the approval of a login ends.
use vignemale.Cli.Auth.{
  Desk, Verdict, approved, awaiting, denied, post_json, save_token, slower, token_request, verdict,
}
use vignemale.Cli.Auth.Flow.{await_token, settle}
use vignemale.Cli.Poll.{Ends, Outcome, lifted, proceed-Ends, proceed-Ends_from}
use vignemale.Prelude.{
  Bool-cases, arith, false, inl, inr, ltb, refl, some, suc, zero, ℕ, ◌++◌, ◌+◌, ◌<◌, ◌≡◌, ◌≤◌,
}
use vignemale.Prelude.Text.{Text, codes}
use vignemale.Python.{Fields, Value, ok, pos, ℤ}
use vignemale.Python.Env.{Env}

-- The clock: the network does not set it back, and a pause moves it on.
pub record Turns (D : Desk) : Type 0 where
  pub moves : (n : ℕ) (s : D.State) → D.clock s + n ≤ D.clock (D.sleep n s)
  pub goes : (url : Text) (d : Fields) (s : D.State) → D.clock s ≤ D.clock (D.post url d s).1

module _ (D : Desk) (T : Turns D) (env : Env) (home : Text) where
  settle-Ends :
      (base : Text) (v : Verdict) (n : ℕ) (again : ℤ → D.State → Outcome (Unit {0}) × D.State)
      (s : D.State)
      → 0 < n
      → ((m : ℕ) → 0 < m → Ends (again (pos m) s))
      → Ends (settle D env home base v n again s)
  unfolding settle
  settle-Ends base (approved token) n again s some_pause h =
      proceed-Ends (lifted (save_token D env home base token s)) (λ _ s'. (some (ok tt), s'))
        (_, refl) (λ _ _. (ok tt, refl))
  settle-Ends base awaiting n again s some_pause h = h n some_pause
  settle-Ends base slower n again s some_pause h = h (n + 5) (omega arith)
  settle-Ends base (denied e) n again s some_pause h = (_, refl)

  -- The loop returns or raises, whatever the panel answers, if the pause between two requests is not
  -- zero: the fuel of the seconds until the deadline is enough, where the network does not set the
  -- clock back and a pause moves it on.
  pub await_token-Ends :
      (base : Text) (device_code : Value) (deadline fuel n : ℕ) (s : D.State)
      → 0 < n
      → deadline ≤ D.clock s + fuel
      → Ends (await_token D env home base device_code deadline (suc fuel) (pos n) s)
  unfolding await_token post_json
  await_token-Ends base device_code deadline zero n s some_pause enough =
      let late : ltb (D.clock s) deadline ≡ false = ground arith in rw late (_, refl)
  await_token-Ends base device_code deadline (suc fuel) n s some_pause enough =
      elim (Bool-cases (ltb (D.clock s) deadline)) [
        | inr late ↦ rw late (_, refl)
        | inl early ↦
            let url = base ++ codes "/api/auth/device/token" in
            let d = token_request D env home device_code in
            let reply = post_json D env home url d (D.sleep n s) in
            rw early (
              proceed-Ends_from (lifted reply)
                (λ r s'.
                  settle D env home base (verdict r.0 r.1) n
                    (await_token D env home base device_code deadline (suc fuel)) s')
                (_, refl)
                (λ r.
                  settle-Ends base (verdict r.0 r.1) n
                    (await_token D env home base device_code deadline (suc fuel)) reply.1 some_pause
                    (λ m positive.
                      await_token-Ends base device_code deadline fuel m reply.1 positive
                        (omega (arith, T.moves n s, T.goes url d (D.sleep n s))))))
      ]
