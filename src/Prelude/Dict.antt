-- ===== src/Prelude/Dict.antt =====
-- Python's `dict`, in insertion order, for any key type with `==`. An assignment to a key that is
-- there keeps its place.
use mathlib.Core.Path.{◌≡◌, refl, subst₂}
use mathlib.Core.Logic.{inl, inr}
use mathlib.Core.Option.{some-injective, none-ne-some}
use mathlib.Core.Bool.{Bool, ◌||◌}
use mathlib.Core.Option.{Option, none, some}
use mathlib.Core.List.{List, [], ◌∷◌}
use native.Mathlib.Omega.{arith}
use vignemale.Prelude.Tests.{Eq, ◌==◌, if◌then◌else◌, is_some, Bool-cases}
use vignemale.Prelude.Lists.{contains, Nodup, keep, All}

abbrev pub Dict {ℓ κ} : Type ℓ → Type κ → Type (ℓ ⊔ κ)
Dict K V = List (K × V)

abbrev pub keys {ℓ κ} : {K : Type ℓ} {V : Type κ} → Dict K V → List K
keys [] = []
keys ((k, _) ∷ d) = k ∷ keys d

module _ {ℓ κ} {K : Type ℓ} {V : Type κ} ⦃e : Eq K⦄ where
  -- d.get(k)
  abbrev pub lookup : K → Dict K V → Option V
  lookup k [] = none
  lookup k ((j, v) ∷ d) = if j == k then some v else lookup k d

  -- `k in d`
  abbrev pub has_key : K → Dict K V → Bool
  has_key k d = is_some (lookup k d)

  -- d[k] = v
  unfoldable pub insert : K → V → Dict K V → Dict K V
  insert k v [] = (k, v) ∷ []
  insert k v ((j, w) ∷ d) = if j == k then (j, v) ∷ d else (j, w) ∷ insert k v d

  -- d.pop(k, None)
  unfoldable pub erase : K → Dict K V → Dict K V
  erase k [] = []
  erase k ((j, w) ∷ d) = let rest = erase k d in if j == k then rest else (j, w) ∷ rest

  -- d.update(other)
  unfoldable pub update : Dict K V → Dict K V → Dict K V
  unfolding insert
  update d [] = d
  update d ((k, v) ∷ other) = update (insert k v d) other

  -- {k: v for k, v in d.items() if p(k)}
  unfoldable pub restrict : (K → Bool) → Dict K V → Dict K V
  restrict p [] = []
  restrict p ((k, v) ∷ d) = let rest = restrict p d in if p k then (k, v) ∷ rest else rest

  pub lookup-insert :
      (j k : K) (v : V) (d : Dict K V)
      → lookup j (insert k v d) ≡ (if k == j then some v else lookup j d)
  unfolding insert
  lookup-insert j k v [] = refl
  lookup-insert j k v ((i, w) ∷ d) =
      ground (arith, lookup-insert j k v d, e.beq_iff i k, e.beq_iff i j, e.beq_iff k j)

  pub lookup-insert_self : (k : K) (v : V) (d : Dict K V) → lookup k (insert k v d) ≡ some v
  lookup-insert_self k v d = ground (arith, lookup-insert k k v d, e.beq_iff k k)

  pub lookup-erase :
      (j k : K) (d : Dict K V) → lookup j (erase k d) ≡ (if k == j then none else lookup j d)
  unfolding erase
  lookup-erase j k [] = ground arith
  lookup-erase j k ((i, w) ∷ d) =
      ground (arith, lookup-erase j k d, e.beq_iff i k, e.beq_iff i j, e.beq_iff k j)

  pub has_key-insert :
      (j k : K) (v : V) (d : Dict K V) → has_key j (insert k v d) ≡ ((k == j) || has_key j d)
  has_key-insert j k v d = ground (arith, lookup-insert j k v d)

  pub contains-keys : (k : K) (d : Dict K V) → contains k (keys d) ≡ has_key k d
  contains-keys k [] = refl
  contains-keys k ((j, v) ∷ d) = ground (arith, contains-keys k d)

  pub keys-restrict : (p : K → Bool) (d : Dict K V) → keys (restrict p d) ≡ keep p (keys d)
  unfolding restrict
  keys-restrict p [] = refl
  keys-restrict p ((k, v) ∷ d) = ground (arith, keys-restrict p d)

  pub lookup-restrict :
      (p : K → Bool) (k : K) (d : Dict K V)
      → lookup k (restrict p d) ≡ (if p k then lookup k d else none)
  unfolding restrict
  lookup-restrict p k [] = ground arith
  lookup-restrict p k ((j, v) ∷ d) = ground (arith, lookup-restrict p k d, e.beq_iff j k, same)
    where
      same : j ≡ k → p j ≡ p k
      same q = λ i. p (q i)

  pub insert-Nodup : (k : K) (v : V) (d : Dict K V) → Nodup (keys d) → Nodup (keys (insert k v d))
  unfolding insert
  insert-Nodup k v [] h = (refl, tt)
  insert-Nodup k v ((j, w) ∷ d) h = ground (
    arith,
    insert-Nodup k v d h.1,
    contains-keys j (insert k v d),
    contains-keys j d,
    has_key-insert j k v d,
    e.beq_iff j k,
    e.beq_iff k j,
  )

module _ {ℓ κ} {K : Type ℓ} {V : Type κ} ⦃e : Eq K⦄ where
  -- What holds of every entry holds of the entry that is found.
  pub lookup-All {μ} :
      (Q : K → V → Type μ) (k : K) (v : V) (d : Dict K V)
      → All (λ x. Q x.0 x.1) d
      → lookup k d ≡ some v
      → Q k v
  lookup-All Q k v [] h p = absurd (none-ne-some v p)
  lookup-All Q k v ((j, w) ∷ d) h p = elim (Bool-cases (j == k)) [
    | inl same ↦ subst₂ Q ((e.beq_iff j k).0 same) (some-injective w v (rw same at p)) h.0
    | inr differ ↦ lookup-All Q k v d h.1 (rw differ at p)
  ]

  -- The entries of the other dictionary win.
  pub lookup-update :
      (k : K) (d other : Dict K V)
      → Nodup (keys other)
      → lookup k (update d other) ≡ (elim (lookup k other) [ none ↦ lookup k d | some v ↦ some v ])
  unfolding update
  lookup-update k d [] h = refl
  lookup-update k d ((j, v) ∷ other) h = elim (Bool-cases (j == k)) [
    | inl same ↦ ground (
      arith,
      lookup-update k (insert j v d) other h.1,
      lookup-insert k j v d,
      contains-keys k other,
      moved ((e.beq_iff j k).0 same),
    )
    | inr differ ↦ ground (arith, lookup-update k (insert j v d) other h.1, lookup-insert k j v d)
  ]
    where
      moved : j ≡ k → contains j (keys other) ≡ contains k (keys other)
      moved p = λ i. contains (p i) (keys other)
