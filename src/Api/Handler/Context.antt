-- ===== src/Api/Handler/Context.antt =====
-- The request context around a call of the wrapper, and what reaches the handler.
use mathlib.Core.Bool.{false≢true}
use mathlib.Core.Option.{none-ne-some, some-injective}
use mathlib.Core.Path.{subst}
use vignemale.Api.Errors.{fail, fail-invalid_argument}
use vignemale.Api.Handler.{
  Pydantic, Signature, accepts, body_key, body_required, check_body, prepare, validate_body,
  wrapper,
}
use vignemale.Api.Registry.{Function, Kwargs, Session}
use vignemale.Prelude.{
  Bool-cases, Option, ap, arith, false, if◌then◌else◌, inl, inr, nat_eq, none, not, opt_eq, pair_eq,
  refl, some, sym, true, ◌&&◌, ◌==◌, ◌||◌, ◌≡◌, ◌⊎◌,
}
use vignemale.Prelude.Dict.{
  has_key, insert, lookup, lookup-insert, lookup-insert_self, lookup-restrict, restrict,
}
use vignemale.Prelude.Text.{Text, codes, text_eq}
use vignemale.Python.{
  Exception, Value, api_error, null, ok, ok-injective, raise, raise-injective, raise-ne-ok,
}

module _ (P : Pydantic) {W : Type 0} where
  -- Whatever the handler does, and whether the call returns or raises, the request context after
  -- the wrapper is the one before it.
  pub ctx-wrapper :
      (sig : Signature) (func : Function W) (kwargs : Kwargs) (s : Session W)
      → (wrapper P sig func kwargs s).1.ctx ≡ s.ctx
  unfolding wrapper
  ctx-wrapper sig func kwargs s = ground arith

-- What a call that the wrapper accepts passes to the handler.
pub record Passes (P : Pydantic) (sig : Signature) (kwargs passed : Kwargs) : Type 0 where
  -- only what the signature declares
  pub declared : (k : Text) → has_key k passed ≡ true → (sig.var_kwargs || accepts sig k) ≡ true
  -- and what it declares comes through unchanged, but for the body
  pub kept :
      (k : Text)
      → (k == body_key) ≡ false
      → (sig.var_kwargs || accepts sig k) ≡ true
      → lookup k passed ≡ lookup k kwargs
  -- a body that the handler requires is there
  pub has_body : body_required sig ≡ true → has_key body_key passed ≡ true
  -- a body with a model has been validated by it
  pub validated :
      (m : Text)
      → sig.body_model ≡ some m
      → has_key body_key passed ≡ true
      → (v : Value) × (typed : Value) × (lookup body_key kwargs ≡ some v)
        × (P.validate m v ≡ inr typed)
        × (lookup body_key passed ≡ some typed)

-- The error of a request that the wrapper refuses.
abbrev pub IsInvalidArgument : Exception → Type 0
IsInvalidArgument (api_error e) = (e.code ≡ codes "invalid_argument") × (e.status ≡ 400)
IsInvalidArgument _ = ⊥

-- What `validate_body` keeps and what it checks.
record Checks (P : Pydantic) (body_model : Option Text) (kwargs passed : Kwargs) : Type 0 where
  same : (k : Text) → (k == body_key) ≡ false → lookup k passed ≡ lookup k kwargs
  has : (k : Text) → has_key k passed ≡ has_key k kwargs
  checked :
      (m : Text)
      → body_model ≡ some m
      → has_key body_key passed ≡ true
      → (v : Value) × (typed : Value) × (lookup body_key kwargs ≡ some v)
        × (P.validate m v ≡ inr typed)
        × (lookup body_key passed ≡ some typed)

module _ (P : Pydantic) where
  insert_body-Checks :
      (m : Text) (kwargs : Kwargs) (v typed : Value)
      → lookup body_key kwargs ≡ some v
      → P.validate m v ≡ inr typed
      → Checks P (some m) kwargs (insert body_key typed kwargs)
  insert_body-Checks m kwargs v typed found valid = record {
    same = λ k ne. ground (
      arith,
      lookup-insert k body_key typed kwargs,
      text_eq.beq_iff body_key k,
      text_eq.beq_iff k body_key,
    );
    has = λ k.
        ground
          (arith, lookup-insert k body_key typed kwargs, text_eq.beq_iff body_key k, body_found k);
    checked = λ n e present. (
      v,
      typed,
      found,
      subst (λ x. P.validate x v ≡ inr typed) (some-injective m n e) valid,
      lookup-insert_self body_key typed kwargs,
    );
  }
    where
      body_found : (k : Text) → body_key ≡ k → lookup k kwargs ≡ some v
      body_found k e = subst (λ j. lookup j kwargs ≡ some v) e found

  no_body-Checks :
      (m : Text) (kwargs : Kwargs) → lookup body_key kwargs ≡ none → Checks P (some m) kwargs kwargs
  no_body-Checks m kwargs absent = record {
    same = λ k _. refl;
    has = λ k. refl;
    checked = λ n e present. absurd (false≢true (rw absent at present));
  }

  check_body-Checks :
      (m : Text) (kwargs passed : Kwargs) (o : Option Value) (r : Value ⊎ Value)
      → lookup body_key kwargs ≡ o
      → ((v : Value) → o ≡ some v → P.validate m v ≡ r)
      → check_body P m kwargs o ≡ ok passed
      → Checks P (some m) kwargs passed
  check_body-Checks m kwargs passed none r found outcome h =
      subst (λ p. Checks P (some m) kwargs p) (ok-injective h) (no_body-Checks m kwargs found)
  check_body-Checks m kwargs passed (some v) (inl errors) found outcome h =
      absurd (raise-ne-ok (rw fail-invalid_argument at (rw (outcome v refl) at h)))
  check_body-Checks m kwargs passed (some v) (inr typed) found outcome h =
      subst (λ q. Checks P (some m) kwargs q) (ok-injective (rw (outcome v refl) at h))
        (insert_body-Checks m kwargs v typed found (outcome v refl))

  outcome_of : Text → Option Value → Value ⊎ Value
  outcome_of m none = inl null
  outcome_of m (some v) = P.validate m v

  outcome_of-some :
      (m : Text) (o : Option Value) (v : Value) → o ≡ some v → P.validate m v ≡ outcome_of m o
  unfolding outcome_of
  outcome_of-some m none v e = absurd (none-ne-some v e)
  outcome_of-some m (some w) v e = ap (P.validate m) (sym (some-injective w v e))

  validate_body-Checks :
      (body_model : Option Text) (kwargs passed : Kwargs)
      → validate_body P body_model kwargs ≡ ok passed
      → Checks P body_model kwargs passed
  unfolding validate_body
  validate_body-Checks none kwargs passed h =
      subst (λ p. Checks P none kwargs p) (ok-injective h)
        (record { same = λ k _. refl; has = λ k. refl; checked = λ m e. absurd (none-ne-some m e) })
  validate_body-Checks (some m) kwargs passed h =
      check_body-Checks m kwargs passed (lookup body_key kwargs)
        (outcome_of m (lookup body_key kwargs)) refl (outcome_of-some m (lookup body_key kwargs)) h

  abbrev passed_on : Signature → Kwargs → Kwargs
  passed_on sig kwargs = if sig.var_kwargs then kwargs else restrict (accepts sig) kwargs

  lookup-passed_on :
      (sig : Signature) (k : Text) (kwargs : Kwargs)
      → lookup k (passed_on sig kwargs)
        ≡ (if sig.var_kwargs || accepts sig k then lookup k kwargs else none)
  lookup-passed_on sig k kwargs = ground (arith, lookup-restrict (accepts sig) k kwargs)

  prepare_split :
      (sig : Signature) (kwargs passed : Kwargs)
      → prepare P sig kwargs ≡ ok passed
      → ((body_required sig && not (has_key body_key (passed_on sig kwargs))) ≡ false)
        × (validate_body P sig.body_model (passed_on sig kwargs) ≡ ok passed)
  unfolding prepare
  prepare_split sig kwargs passed h =
      elim (Bool-cases (body_required sig && not (has_key body_key (passed_on sig kwargs)))) [
        | inl missing ↦ absurd (
            raise-ne-ok (
              rw (fail-invalid_argument (codes "request body required") null) at (rw missing at h)))
        | inr there ↦ (there, rw there at h)
      ]

  -- If the wrapper calls the handler, then with exactly what the signature declares: every
  -- declared argument but the body unchanged, a required body present, and a body with a model
  -- replaced by what the model made of it.
  pub prepare-Passes :
      (sig : Signature) (kwargs passed : Kwargs)
      → prepare P sig kwargs ≡ ok passed
      → Passes P sig kwargs passed
  prepare-Passes sig kwargs passed h =
      let (there, validated) = prepare_split sig kwargs passed h in
      let c = validate_body-Checks sig.body_model (passed_on sig kwargs) passed validated in
      record {
        declared = λ k present. ground (arith, c.has k, lookup-passed_on sig k kwargs);
        kept = λ k ne d. ground (arith, c.same k ne, lookup-passed_on sig k kwargs);
        has_body = λ required. ground (arith, c.has body_key);
        validated = λ m e present.
            let (v, typed, found, valid, now) = c.checked m e present in
            (v, typed, ground (arith, lookup-passed_on sig body_key kwargs), valid, now);
      }

  fail-IsInvalidArgument :
      (message : Text) (details : Value) {e : Exception}
      → fail {A = Kwargs} (codes "invalid_argument") message details ≡ raise e
      → IsInvalidArgument e
  fail-IsInvalidArgument message details h =
      subst IsInvalidArgument (raise-injective (rw (fail-invalid_argument message details) at h))
        (refl, refl)

  check_body_error :
      (m : Text) (kwargs : Kwargs) (o : Option Value) (r : Value ⊎ Value) {e : Exception}
      → ((v : Value) → o ≡ some v → P.validate m v ≡ r)
      → check_body P m kwargs o ≡ raise e
      → IsInvalidArgument e
  check_body_error m kwargs none r outcome h = absurd (raise-ne-ok (sym h))
  check_body_error m kwargs (some v) (inl errors) outcome h =
      fail-IsInvalidArgument (codes "invalid request") errors (rw (outcome v refl) at h)
  check_body_error m kwargs (some v) (inr typed) outcome h =
      absurd (raise-ne-ok (sym (rw (outcome v refl) at h)))

  validate_body_error :
      (body_model : Option Text) (kwargs : Kwargs) {e : Exception}
      → validate_body P body_model kwargs ≡ raise e
      → IsInvalidArgument e
  unfolding validate_body
  validate_body_error none kwargs h = absurd (raise-ne-ok (sym h))
  validate_body_error (some m) kwargs h =
      check_body_error m kwargs (lookup body_key kwargs) (outcome_of m (lookup body_key kwargs))
        (outcome_of-some m (lookup body_key kwargs)) h

  prepare_error :
      (sig : Signature) (kwargs : Kwargs) {e : Exception}
      → prepare P sig kwargs ≡ raise e
      → IsInvalidArgument e
  unfolding prepare
  prepare_error sig kwargs h =
      elim (Bool-cases (body_required sig && not (has_key body_key (passed_on sig kwargs)))) [
        | inl missing ↦
            fail-IsInvalidArgument (codes "request body required") null (rw missing at h)
        | inr there ↦ validate_body_error sig.body_model (passed_on sig kwargs) (rw there at h)
      ]

  -- A request that the wrapper refuses does not reach the handler: the session is unchanged, and
  -- the error is an `invalid_argument` with status 400.
  pub wrapper_rejects :
      {W : Type 0} (sig : Signature) (func : Function W) (kwargs : Kwargs) (s : Session W)
      (e : Exception)
      → prepare P sig kwargs ≡ raise e
      → (wrapper P sig func kwargs s ≡ (raise e, s)) × IsInvalidArgument e
  unfolding wrapper
  wrapper_rejects sig func kwargs s e h = (rw (h, wrapper), prepare_error sig kwargs h)
