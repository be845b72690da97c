-- ===== src/Call/Sign.antt =====
-- `_sign` of `vignemale/call.py`. SHA-256 and HMAC, with hexadecimal digests, are parameters.
use vignemale.Prelude.{All, List, [], ap, sym, ℕ, ◌∙◌, ◌∷◌, ◌≡◌}
use vignemale.Prelude.Text.{Text, join, split}
use vignemale.Prelude.Text.Split.{Free, split-join}

pub record Crypto : Type 0 where
  pub sha256 : Text → Text
  pub hmac : Text → Text → Text

abbrev newline : ℕ
newline = b'\n'

module _ (C : Crypto) where
  unfoldable pub sign_message : Text → Text → Text → Text → Text → Text
  sign_message date caller endpoint payload auth_data =
      join (newline ∷ []) (date ∷ caller ∷ endpoint ∷ C.sha256 payload ∷ C.sha256 auth_data ∷ [])

  unfoldable pub sign : Text → Text → Text → Text → Text → Text → Text
  sign secret date caller endpoint payload auth_data =
      C.hmac secret (sign_message date caller endpoint payload auth_data)

  -- Digests are hexadecimal, so they hold no newline. Two calls of the same signed message have the
  -- same date, caller and endpoint, and the same digests of body and identity, if no date, caller
  -- or endpoint holds a newline: none of the five parts can be traded for another.
  pub sign_message-injective :
      ((t : Text) → Free newline (C.sha256 t))
      → (date caller endpoint payload auth_data : Text)
        (date' caller' endpoint' payload' auth_data' : Text)
      → All (Free newline) (date ∷ caller ∷ endpoint ∷ [])
      → All (Free newline) (date' ∷ caller' ∷ endpoint' ∷ [])
      → sign_message date caller endpoint payload auth_data
        ≡ sign_message date' caller' endpoint' payload' auth_data'
      → (date ≡ date')
        × (caller ≡ caller')
        × (endpoint ≡ endpoint')
        × (C.sha256 payload ≡ C.sha256 payload')
        × (C.sha256 auth_data ≡ C.sha256 auth_data')
  unfolding sign_message
  sign_message-injective hex date caller endpoint payload auth_data date' caller' endpoint' payload'
        auth_data' (a, (b, (c, _))) (a', (b', (c', _))) h =
      five (
        sym (
          split-join newline date (caller ∷ endpoint ∷ C.sha256 payload ∷ C.sha256 auth_data ∷ [])
            (a, (b, (c, (hex payload, (hex auth_data, tt))))))
        ∙ ap (split newline) h
        ∙ split-join newline date'
            (caller' ∷ endpoint' ∷ C.sha256 payload' ∷ C.sha256 auth_data' ∷ [])
            (a', (b', (c', (hex payload', (hex auth_data', tt))))))
    where
      five :
          {x1 x2 x3 x4 x5 y1 y2 y3 y4 y5 : Text}
          → ◌≡◌ {A = List Text} (x1 ∷ x2 ∷ x3 ∷ x4 ∷ x5 ∷ []) (y1 ∷ y2 ∷ y3 ∷ y4 ∷ y5 ∷ [])
          → (x1 ≡ y1) × (x2 ≡ y2) × (x3 ≡ y3) × (x4 ≡ y4) × (x5 ≡ y5)
      five e = (cc, cc, cc, cc, cc)
