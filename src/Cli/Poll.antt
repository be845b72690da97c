-- ===== src/Cli/Poll.antt =====
-- Waiting for something until a deadline, as `vignemale_cli/devinfra.py` does, on fuel. Times are in
-- milliseconds.
use mathlib.Core.Option.{none-ne-some, some-injective}
use vignemale.Prelude.{
  Bool, Bool-cases, Option, ap, arith, false, if◌then◌else◌, inl, inr, ltb, none, refl, some, suc,
  true, zero, ℕ, ◌+◌, ◌<◌, ◌≡◌, ◌≤◌,
}
use vignemale.Prelude.Text.{Text}
use vignemale.Python.{Result, ok, raise, raise-ne-ok, system_exit}

-- What may run out of fuel, return or raise.
abbrev pub Outcome : Type 0 → Type 0
Outcome A = Option (Result A)

abbrev pub proceed {ℓ} :
    {A B : Type 0} {S : Type ℓ} → Outcome A × S → (A → S → Outcome B × S) → Outcome B × S
proceed (none, s) next = (none, s)
proceed (some (raise e), s) next = (some (raise e), s)
proceed (some (ok a), s) next = next a s

-- If a chain returns, its first part does, and the rest on its result.
pub proceed-ok :
    {A B S : Type 0} (x : Outcome A × S) (next : A → S → Outcome B × S) (b : B) (s' : S)
    → proceed x next ≡ (some (ok b), s')
    → (a : A) × (x.0 ≡ some (ok a)) × (next a x.1 ≡ (some (ok b), s'))
proceed-ok (none, s) next b s' h = absurd (none-ne-some _ (ap (λ r. r.0) h))
proceed-ok (some (raise e), s) next b s' h =
    absurd (raise-ne-ok (some-injective _ _ (ap (λ r. r.0) h)))
proceed-ok (some (ok a), s) next b s' h = (a, refl, h)

module _ {S : Type 0} (clock : S → ℕ) (sleep : ℕ → S → S) (attempt : S → Bool × S)
    (pause deadline : ℕ) where
  -- while time.time() < deadline: …; whether an attempt has succeeded.
  unfoldable pub poll : ℕ → S → Option Bool × S
  poll zero s = (none, s)
  poll (suc fuel) s =
      let (done, s') = attempt s in
      let rest = poll fuel (sleep pause s') in
      if ltb (clock s) deadline then (if done then (some true, s') else rest) else (some false, s)

  -- Where an attempt does not set the clock back and a pause moves it on, the fuel of the time that
  -- is left is enough.
  pub poll-ends :
      (fuel : ℕ) (s : S)
      → ((u : S) → clock u ≤ clock (attempt u).1)
      → ((u : S) → clock u < clock (sleep pause u))
      → deadline ≤ clock s + fuel
      → (b : Bool) × ((poll (suc fuel) s).0 ≡ some b)
  unfolding poll
  poll-ends zero s goes moves enough = (false, ground arith)
  poll-ends (suc fuel) s goes moves enough =
      let s' = sleep pause (attempt s).1 in
      let (b, h) = poll-ends fuel s' goes moves (omega (arith, goes s, moves (attempt s).1)) in
      elim (Bool-cases (ltb (clock s) deadline)) [
        | inr late ↦ (false, rw late refl)
        | inl early ↦ elim (Bool-cases (attempt s).0) [
          | inl done ↦ (true, rw (early, done) refl)
          | inr again ↦ (b, rw (early, again) h)
        ]
      ]

-- What follows a wait.
abbrev pub or_exit {ℓ} : {S : Type ℓ} → Text → Option Bool × S → Outcome (Unit {0}) × S
or_exit message (none, s) = (none, s)
or_exit message (some true, s) = (some (ok tt), s)
or_exit message (some false, s) = (some (raise (system_exit message)), s)

-- A call that does not wait.
abbrev pub lifted {ℓ} : {A : Type 0} {S : Type ℓ} → Result A × S → Outcome A × S
lifted (r, s) = (some r, s)

-- It does not run out of fuel.
abbrev pub Ends {ℓ} : {A : Type 0} {S : Type ℓ} → Outcome A × S → Type 0
Ends {A = A} x = (r : Result A) × (x.0 ≡ some r)

pub proceed-Ends_from {ℓ} :
    {A B : Type 0} {S : Type ℓ} (x : Outcome A × S) (next : A → S → Outcome B × S)
    → Ends x
    → ((a : A) → Ends (next a x.1))
    → Ends (proceed x next)
proceed-Ends_from (none, s) next (r, h) rest = absurd (none-ne-some r h)
proceed-Ends_from (some (ok a), s) next ends rest = rest a
proceed-Ends_from (some (raise e), s) next ends rest = (raise e, refl)

pub proceed-Ends {ℓ} :
    {A B : Type 0} {S : Type ℓ} (x : Outcome A × S) (next : A → S → Outcome B × S)
    → Ends x
    → ((a : A) (s : S) → Ends (next a s))
    → Ends (proceed x next)
proceed-Ends x next ends rest = proceed-Ends_from x next ends (λ a. rest a x.1)
