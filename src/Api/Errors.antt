-- ===== src/Api/Errors.antt =====
-- The error contract of `vignemale/api.py`: codes, statuses, `APIError` and `HTTPError`.
use vignemale.Prelude.{
  All, Bool-cases, Option-cases, [], arith, if◌then◌else◌, inl, inr, is_some, leb, list_beq, map,
  nat_eq, none, opt_eq, or_else, pair_eq, refl, some, sym, true, ℕ, ◌++◌, ◌∷◌, ◌≡◌,
}
use vignemale.Prelude.Dict.{Dict, lookup, lookup-All}
use vignemale.Prelude.Text.{Text, codes, print_nat, text_eq}
use vignemale.Python.{
  ApiError, Result, Value, api_error, dict, end, field, null, ok, ok-injective, raise, raise-ne-ok,
  repr, str, value_error, ◌>>=◌,
}

abbrev pub code_to_status : Dict Text ℕ
code_to_status =
    (codes "canceled", 499)
    ∷ (codes "unknown", 500)
    ∷ (codes "invalid_argument", 400)
    ∷ (codes "deadline_exceeded", 504)
    ∷ (codes "not_found", 404)
    ∷ (codes "already_exists", 409)
    ∷ (codes "permission_denied", 403)
    ∷ (codes "resource_exhausted", 429)
    ∷ (codes "failed_precondition", 400)
    ∷ (codes "aborted", 409)
    ∷ (codes "out_of_range", 400)
    ∷ (codes "unimplemented", 501)
    ∷ (codes "internal", 500)
    ∷ (codes "unavailable", 503)
    ∷ (codes "data_loss", 500)
    ∷ (codes "unauthenticated", 401)
    ∷ []

abbrev pub status_to_code : Dict ℕ Text
status_to_code =
    (400, codes "invalid_argument")
    ∷ (401, codes "unauthenticated")
    ∷ (403, codes "permission_denied")
    ∷ (404, codes "not_found")
    ∷ (409, codes "already_exists")
    ∷ (429, codes "resource_exhausted")
    ∷ (499, codes "canceled")
    ∷ (500, codes "internal")
    ∷ (501, codes "unimplemented")
    ∷ (503, codes "unavailable")
    ∷ (504, codes "deadline_exceeded")
    ∷ []

abbrev pub error_body : Text → Value → Value → Value
error_body code message details = dict (
    field (codes "code") (str code)
      (field (codes "message") message (field (codes "details") details end)))

-- `APIError(code, message, details)`
unfoldable pub new_api_error : Text → Value → Value → Result ApiError
new_api_error code message details = elim (lookup code code_to_status) [
  | none ↦ raise (value_error (codes "unknown API error code: " ++ repr code))
  | some status ↦
      ok (record { code = code; status = status; body = error_body code message details })
]

-- The class methods that the loop over `_CODE_TO_STATUS` adds, by name.
unfoldable pub shortcuts : Dict Text (Value → Value → Result ApiError)
unfolding new_api_error
shortcuts = map (λ entry. (entry.0, new_api_error entry.0)) code_to_status

-- `_STATUS_TO_CODE.get(int(status), "internal" if int(status) >= 500 else "unknown")`
unfoldable pub code_of_status : ℕ → Text
code_of_status status =
    or_else (lookup status status_to_code)
      (if leb 500 status then codes "internal" else codes "unknown")

abbrev pub http_text : ℕ → Text
http_text status = codes "HTTP " ++ print_nat status

-- The message and the details that `HTTPError` makes of `detail`. An empty text counts as none.
unfoldable pub split_detail : ℕ → Value → Text × Value
split_detail status null = (http_text status, null)
split_detail status (str []) = (http_text status, null)
split_detail status (str (c ∷ s)) = (c ∷ s, null)
split_detail status detail = (http_text status, detail)

-- `HTTPError(status, detail)`: the requested status wins over the code's.
unfoldable pub new_http_error : ℕ → Value → Result ApiError
new_http_error status detail = do
  let (message, details) = split_detail status detail
  e ← new_api_error (code_of_status status) (str message) details
  ok (record e { status = status })

-- `raise APIError(code, message, details)`
unfoldable pub fail {ℓ} : {A : Type ℓ} → Text → Text → Value → Result A
unfolding new_api_error
fail code message details = do e ← new_api_error code (str message) details; raise (api_error e)

abbrev IsKnown : Text → Type 0
IsKnown code = is_some (lookup code code_to_status) ≡ true

table-IsKnown : All (λ (entry : ℕ × Text). IsKnown entry.1) status_to_code
unfolding list_beq
table-IsKnown = ground arith

table_back : All (λ (entry : ℕ × Text). lookup entry.1 code_to_status ≡ some entry.0) status_to_code
unfolding list_beq
table_back = ground arith

default-IsKnown :
    (status : ℕ) → IsKnown (if leb 500 status then codes "internal" else codes "unknown")
unfolding list_beq
default-IsKnown status = elim (Bool-cases (leb 500 status)) [ inl e ↦ rw e | inr e ↦ rw e ]

-- Every code that `HTTPError` picks is one that `APIError` knows.
code_of_status-IsKnown : (status : ℕ) → IsKnown (code_of_status status)
unfolding code_of_status
code_of_status-IsKnown status = elim (Option-cases (lookup status status_to_code)) [
  | inl absent ↦ rw (absent, code_of_status) (default-IsKnown status)
  | inr (code, found) ↦
      rw (found, code_of_status)
        (lookup-All (λ _ c. IsKnown c) status code status_to_code table-IsKnown found)
]

-- `HTTPError(status, detail)` is built for every status and detail, never raising the `ValueError`
-- of an unknown code: it has the requested status, the code of that status, and the message and
-- details that the detail is split into.
pub http_error_total :
    (status : ℕ) (detail : Value)
    → let (message, details) = split_detail status detail in
      new_http_error status detail
      ≡ ok (record {
        code = code_of_status status;
        status = status;
        body = error_body (code_of_status status) (str message) details;
      })
unfolding new_http_error new_api_error
http_error_total status detail = ground (arith, code_of_status-IsKnown status)

-- For a status of the table and a text that is not empty, `HTTPError(status, text)` is the very
-- error `APIError(code, text)` of the status's code.
pub http_error-eq-api_error :
    (status : ℕ) (code : Text) (c : ℕ) (s : Text)
    → lookup status status_to_code ≡ some code
    → new_http_error status (str (c ∷ s)) ≡ new_api_error code (str (c ∷ s)) null
unfolding new_http_error new_api_error split_detail list_beq
http_error-eq-api_error status code c s found = rw (found_code, table_code) refl
  where
    found_code : code_of_status status ≡ code
    found_code = unfold code_of_status in rw found

    table_code : lookup code code_to_status ≡ some status
    table_code =
        lookup-All (λ n k. lookup k code_to_status ≡ some n) status code status_to_code table_back
          found

-- The error of one of the codes of the table.
abbrev pub error_of : Text → ℕ → Value → Value → ApiError
error_of code status message details = record {
  code = code;
  status = status;
  body = error_body code message details;
}

module _ {ℓ} {A : Type ℓ} where
  pub fail-eq :
      (code : Text) (status : ℕ) (message : Text) (details : Value)
      → lookup code code_to_status ≡ some status
      → fail {A = A} code message details
        ≡ raise (api_error (error_of code status (str message) details))
  unfolding fail
  fail-eq code status message details found = rw (found, new_api_error)

  pub fail-invalid_argument :
      (message : Text) (details : Value)
      → fail {A = A} (codes "invalid_argument") message details
        ≡ raise (api_error (error_of (codes "invalid_argument") 400 (str message) details))
  unfolding list_beq
  fail-invalid_argument message details =
      fail-eq (codes "invalid_argument") 400 message details refl

-- An error that `APIError` builds is one of the table.
pub new_api_error-inv :
    (code : Text) (message details : Value) {e : ApiError}
    → new_api_error code message details ≡ ok e
    → (n : ℕ) × (lookup code code_to_status ≡ some n) × (e ≡ error_of code n message details)
unfolding new_api_error
new_api_error-inv code message details h = elim (Option-cases (lookup code code_to_status)) [
  | inl absent ↦ absurd (raise-ne-ok (rw (absent, new_api_error) at h))
  | inr (n, found) ↦ (n, found, sym (ok-injective (rw (found, new_api_error) at h)))
]

pub new_api_error_unknown :
    (code : Text) (message details : Value)
    → lookup code code_to_status ≡ none
    → new_api_error code message details
      ≡ raise (value_error (codes "unknown API error code: " ++ repr code))
unfolding new_api_error
new_api_error_unknown code message details h = rw (h, new_api_error)
