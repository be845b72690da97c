-- ===== src/Prelude/Lists.antt =====
-- Lists measured by native numbers, and Python's `any`, `in` and list comprehensions.
use Prim.Native.Nat.{ℕ, zero, suc, ◌+◌, ◌≤◌}
use mathlib.Core.Path.{◌≡◌, refl, ap, sym, ◌∙◌}
use mathlib.Core.Logic.{◌↔◌, ◌⊎◌, inl, inr}
use mathlib.Core.Bool.{false≢true, Bool, true, false, ◌&&◌, ◌||◌}
use mathlib.Core.Option.{Option, none, some}
use mathlib.Core.List.{List, [], ◌∷◌, ◌++◌, reverse, reverse-cons}
use native.Mathlib.Omega.{arith}
use vignemale.Prelude.Tests.{Bool-cases, Eq, ◌==◌, if◌then◌else◌}

module _ {ℓ} {A : Type ℓ} where
  abbrev pub length : List A → ℕ
  length [] = 0
  length (x ∷ xs) = suc (length xs)

  abbrev pub take : ℕ → List A → List A
  take zero xs = []
  take (suc n) [] = []
  take (suc n) (x ∷ xs) = x ∷ take n xs

  abbrev pub get_elem? : List A → ℕ → Option A
  get_elem? [] i = none
  get_elem? (x ∷ xs) zero = some x
  get_elem? (x ∷ xs) (suc i) = get_elem? xs i

  -- `[x for x in xs if p(x)]`
  abbrev pub keep : (A → Bool) → List A → List A
  keep p [] = []
  keep p (x ∷ xs) = let rest = keep p xs in if p x then x ∷ rest else rest

  -- `any(p(x) for x in xs)`
  abbrev pub any : (A → Bool) → List A → Bool
  any p [] = false
  any p (x ∷ xs) = p x || any p xs

  abbrev pub all : (A → Bool) → List A → Bool
  all p [] = true
  all p (x ∷ xs) = p x && all p xs

  abbrev pub is_empty : List A → Bool
  is_empty [] = true
  is_empty (_ ∷ _) = false

  pub length-append : (xs ys : List A) → length (xs ++ ys) ≡ length xs + length ys
  length-append [] ys = omega arith
  length-append (x ∷ xs) ys = omega (arith, length-append xs ys)

  pub any-append : (p : A → Bool) (xs ys : List A) → any p (xs ++ ys) ≡ (any p xs || any p ys)
  any-append p [] ys = refl
  any-append p (x ∷ xs) ys = ground (arith, any-append p xs ys)

  pub keep-append : (p : A → Bool) (xs ys : List A) → keep p (xs ++ ys) ≡ keep p xs ++ keep p ys
  keep-append p [] ys = refl
  keep-append p (x ∷ xs) ys = ground (arith, keep-append p xs ys)

  pub length-take-le : (n : ℕ) (xs : List A) → length (take n xs) ≤ n
  length-take-le zero xs = omega arith
  length-take-le (suc n) [] = omega arith
  length-take-le (suc n) (x ∷ xs) = omega (arith, length-take-le n xs)

module _ {ℓ κ} {A : Type ℓ} where
  abbrev pub All : (A → Type κ) → List A → Type κ
  All P [] = Unit
  All P (x ∷ xs) = P x × All P xs

module _ {ℓ} {A : Type ℓ} ⦃e : Eq A⦄ where
  -- `x in xs`
  abbrev pub contains : A → List A → Bool
  contains x [] = false
  contains x (y ∷ ys) = (y == x) || contains x ys

  abbrev pub Nodup : List A → Type 0
  Nodup [] = Unit
  Nodup (x ∷ xs) = (contains x xs ≡ false) × Nodup xs

  -- `xs.extend(y for y in ys if y not in xs)`: the generator sees the list as it grows.
  unfoldable pub extend_new : List A → List A → List A
  extend_new xs [] = xs
  extend_new xs (y ∷ ys) = extend_new (if contains y xs then xs else xs ++ (y ∷ [])) ys

  pub contains-append :
      (x : A) (xs ys : List A) → contains x (xs ++ ys) ≡ (contains x xs || contains x ys)
  contains-append x [] ys = refl
  contains-append x (z ∷ xs) ys = ground (arith, contains-append x xs ys)

  Nodup-snoc : (x : A) (xs : List A) → Nodup xs → contains x xs ≡ false → Nodup (xs ++ (x ∷ []))
  Nodup-snoc x [] h n = (refl, tt)
  Nodup-snoc x (y ∷ xs) h n =
      ground
        (arith, Nodup-snoc x xs h.1, contains-append y xs (x ∷ []), e.beq_iff x y, e.beq_iff y x)

  pub extend_new-Nodup : (xs ys : List A) → Nodup xs → Nodup (extend_new xs ys)
  unfolding extend_new
  extend_new-Nodup xs [] h = h
  extend_new-Nodup xs (y ∷ ys) h =
      extend_new-Nodup (if contains y xs then xs else xs ++ (y ∷ [])) ys
        (ground (arith, Nodup-snoc y xs h))

  contains-snoc :
      (x y : A) (xs : List A)
      → contains x (if contains y xs then xs else xs ++ (y ∷ [])) ≡ (contains x xs || (y == x))
  contains-snoc x y xs =
      ground (arith, contains-append x xs (y ∷ []), e.beq_iff y x, e.beq_iff x y, contains_same)
    where
      contains_same : y ≡ x → contains y xs ≡ contains x xs
      contains_same p = ap (λ z. contains z xs) p

  pub contains-extend_new :
      (x : A) (xs ys : List A) → contains x (extend_new xs ys) ≡ (contains x xs || contains x ys)
  unfolding extend_new
  contains-extend_new x xs [] = ground arith
  contains-extend_new x xs (y ∷ ys) = ground (
    arith,
    contains-extend_new x (if contains y xs then xs else xs ++ (y ∷ [])) ys,
    contains-snoc x y xs,
  )

module _ {A : Type 0} where
  -- `x` stands in the list.
  abbrev pub Elem : A → List A → Type 0
  Elem x [] = ⊥
  Elem x (y ∷ ys) = (x ≡ y) ⊎ Elem x ys

  pub Elem-keep :
      (p : A → Bool) (x : A) (xs : List A) → Elem x (keep p xs) ↔ Elem x xs × (p x ≡ true)
  Elem-keep p x [] = (λ h. absurd h, λ h. h.0)
  Elem-keep p x (y ∷ ys) = elim (Bool-cases (p y)) [
    | inl taken ↦ rw taken (there (Elem-keep p x ys) taken)
    | inr left ↦ rw left (skip (Elem-keep p x ys) left)
  ]
    where
      there :
          (Elem x (keep p ys) ↔ Elem x ys × (p x ≡ true))
          → p y ≡ true
          → (x ≡ y) ⊎ Elem x (keep p ys) ↔ ((x ≡ y) ⊎ Elem x ys) × (p x ≡ true)
      there ih taken = (
        elim [ inl e ↦ (inl e, ap p e ∙ taken) | inr h ↦ (inr (ih.0 h).0, (ih.0 h).1) ],
        λ (h, t). elim h [ inl e ↦ inl e | inr m ↦ inr (ih.1 (m, t)) ],
      )

      skip :
          (Elem x (keep p ys) ↔ Elem x ys × (p x ≡ true))
          → p y ≡ false
          → Elem x (keep p ys) ↔ ((x ≡ y) ⊎ Elem x ys) × (p x ≡ true)
      skip ih left = (
        λ h. (inr (ih.0 h).0, (ih.0 h).1),
        λ (h, t). elim h [
          | inl e ↦ absurd (false≢true (sym left ∙ (ap p (sym e) ∙ t)))
          | inr m ↦ ih.1 (m, t)
        ],
      )

  pub any-Elem :
      (p : A → Bool) (xs : List A) → (any p xs ≡ true) ↔ ((x : A) × Elem x xs × (p x ≡ true))
  any-Elem p [] = (λ h. absurd (false≢true h), λ (x, h, t). absurd h)
  any-Elem p (y ∷ ys) = (
    λ h. elim (Bool-cases (p y)) [
      | inl t ↦ (y, inl refl, t)
      | inr f ↦ let (x, m, t) = (any-Elem p ys).0 (rw f at h) in (x, inr m, t)
    ],
    λ (x, h, t). elim h [
      | inl e ↦ let q : p y ≡ true = ap p (sym e) ∙ t in rw q
      | inr m ↦ let q : any p ys ≡ true = (any-Elem p ys).1 (x, m, t) in ground arith
    ],
  )

  pub Elem-append : (x : A) (xs ys : List A) → Elem x (xs ++ ys) ↔ Elem x xs ⊎ Elem x ys
  Elem-append x [] ys = (λ h. inr h, λ h. elim h [ inl n ↦ absurd n | inr m ↦ m ])
  Elem-append x (y ∷ xs) ys = (
    λ h. elim h [
      | inl e ↦ inl (inl e)
      | inr m ↦ elim ((Elem-append x xs ys).0 m) [ inl l ↦ inl (inr l) | inr r ↦ inr r ]
    ],
    λ h. elim h [
      | inl (inl e) ↦ inl e
      | inl (inr l) ↦ inr ((Elem-append x xs ys).1 (inl l))
      | inr r ↦ inr ((Elem-append x xs ys).1 (inr r))
    ],
  )

  pub Elem-reverse : (x : A) (xs : List A) → Elem x (reverse xs) ↔ Elem x xs
  Elem-reverse x [] = (λ h. h, λ h. h)
  Elem-reverse x (y ∷ xs) = rw (reverse-cons y xs) (
    λ h. elim ((Elem-append x (reverse xs) (y ∷ [])).0 h) [
      | inl m ↦ inr ((Elem-reverse x xs).0 m)
      | inr (inl e) ↦ inl e
      | inr (inr n) ↦ absurd n
    ],
    λ h.
        (Elem-append x (reverse xs) (y ∷ [])).1
          (elim h [ inl e ↦ inr (inl e) | inr m ↦ inl ((Elem-reverse x xs).1 m) ]),
  )
