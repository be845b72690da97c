-- ===== src/Python.antt =====
-- The Python values that the SDK passes on, the exceptions that it raises, and calls that return
-- or raise.
pub mod Env
pub mod Path
use Prim.Native.Nat.{ℕ}
use vignemale.Prelude.{Bool, [], ap, false, inl, inr, refl, true, zero, ◌++◌, ◌∷◌, ◌≡◌, ◌≢◌, ◌⊎◌}
use vignemale.Prelude.Text.{Text}

-- `negsuc n` is -(n + 1).
pub data ℤ : Type 0 where
  pos : ℕ → ℤ
  negsuc : ℕ → ℤ

-- `model c fields` is an instance of the Pydantic class `c`, `tuple` a tuple.
mutual
  pub data Value : Type 0 where
    null : Value
    bool : Bool → Value
    int : ℤ → Value
    str : Text → Value
    list : Items → Value
    tuple : Items → Value
    dict : Fields → Value
    model : Text → Fields → Value

  pub data Items : Type 0 where
    nil : Items
    cons : Value → Items → Items

  pub data Fields : Type 0 where
    end : Fields
    field : Text → Value → Fields → Fields

-- `bool(v)`
unfoldable pub truthy : Value → Bool
truthy null = false
truthy (bool b) = b
truthy (int (pos zero)) = false
truthy (str []) = false
truthy (list nil) = false
truthy (tuple nil) = false
truthy (dict end) = false
truthy _ = true

-- `repr(s)` of a text with no quote, backslash or control character.
abbrev pub repr : Text → Text
repr s = b'\'' ∷ s ++ (b'\'' ∷ [])

-- `vignemale_body` is the JSON text of `body`.
pub record ApiError : Type 0 where
  pub code : Text
  pub status : ℕ
  pub body : Value

pub data Exception : Type 0 where
  api_error : ApiError → Exception
  value_error type_error runtime_error system_exit key_error attribute_error : Text → Exception
  sql_error bucket_error validation_error : Text → Exception
  other : Text → Exception

pub data Result {ℓ} (A : Type ℓ) : Type ℓ where
  ok : A → Result A
  raise : Exception → Result A

infixl 5 ◌>>=◌ ◌>>◌
abbrev pub ◌>>=◌ {ℓ κ} : {A : Type ℓ} {B : Type κ} → Result A → (A → Result B) → Result B
ok a >>= f = f a
raise e >>= f = raise e

abbrev pub ◌>>◌ {ℓ} : {B : Type ℓ} → Result (Unit {0}) → Result B → Result B
m >> k = m >>= λ _. k

pub ok-injective {ℓ} : {A : Type ℓ} {a b : A} → ok a ≡ ok b → a ≡ b
ok-injective h = cc

pub raise-ne-ok {ℓ} : {A : Type ℓ} {e : Exception} {a : A} → raise e ≢ ok a
raise-ne-ok h = cc

pub raise-injective {ℓ} :
    {A : Type ℓ} {d e : Exception} → ◌≡◌ {A = Result A} (raise d) (raise e) → d ≡ e
raise-injective h = cc

-- If a chain returns, its first part does, and the rest on its result.
pub bind-ok {ℓ κ} :
    {A : Type ℓ} {B : Type κ} (m : Result A) {f : A → Result B} {b : B}
    → (m >>= f) ≡ ok b
    → (a : A) × (m ≡ ok a) × (f a ≡ ok b)
bind-ok (ok a) h = (a, refl, h)
bind-ok (raise e) h = absurd (raise-ne-ok h)

-- What follows in a state, if the first part returns; an exception ends it, beside the state.
abbrev pub and_then {ℓ} :
    {A B : Type 0} {S : Type ℓ} → Result A × S → (A → S → Result B × S) → Result B × S
and_then (ok a, s) next = next a s
and_then (raise e, s) next = (raise e, s)

-- If a chain returns, its first part does, and the rest on its result.
pub and_then-ok {ℓ} :
    {A B : Type 0} {S : Type ℓ} (x : Result A × S) (next : A → S → Result B × S) (b : B) (s' : S)
    → and_then x next ≡ (ok b, s')
    → (a : A) × (x.0 ≡ ok a) × (next a x.1 ≡ (ok b, s'))
and_then-ok (ok a, s) next b s' h = (a, refl, h)
and_then-ok (raise e, s) next b s' h = absurd (raise-ne-ok (ap (λ r. r.0) h))

pub Result-cases {ℓ} :
    {A : Type ℓ} (r : Result A) → ((a : A) × (r ≡ ok a)) ⊎ ((e : Exception) × (r ≡ raise e))
Result-cases (ok a) = inl (a, refl)
Result-cases (raise e) = inr (e, refl)
