-- ===== src/Datamodel/Query/Rendered.antt =====
-- The text that `sql()` makes of the pieces of a query.
use mathlib.Core.Bool.{false≢true}
use vignemale.Datamodel.Query.{Piece, index_of, named, names_of, plain, render}
use vignemale.Prelude.{
  Bool-cases, List, [], ap, arith, contains, get_elem?, inl, inr, nat_eq, opt_eq, pair_eq, refl,
  some, true, ℕ, ◌++◌, ◌+◌, ◌==◌, ◌∷◌, ◌≡◌,
}
use vignemale.Prelude.Text.{Text, print_nat, text_eq}

-- The text is the pieces one after the other: a plain character is itself, and a placeholder is `$`
-- and the number, counted from 1, of a declared parameter of its name.
abbrev pub Rendered : List Text → List Piece → Text → Type 0
Rendered order [] text = text ≡ []
Rendered order (plain c ∷ ps) text = (rest : Text) × (text ≡ c ∷ rest) × Rendered order ps rest
Rendered order (named n ∷ ps) text =
    (k : ℕ) × (rest : Text) × (get_elem? order k ≡ some n)
    × (text ≡ b'$' ∷ print_nat (k + 1) ++ rest)
    × Rendered order ps rest

get_elem?-index_of :
    (n : Text) (order : List Text)
    → contains n order ≡ true
    → get_elem? order (index_of n order) ≡ some n
unfolding index_of
get_elem?-index_of n [] h = absurd (false≢true h)
get_elem?-index_of n (m ∷ order) h = elim (Bool-cases (m == n)) [
  | inl same ↦ rw same (ap (λ t. some t) ((text_eq.beq_iff m n).0 same))
  | inr differ ↦ rw differ (get_elem?-index_of n order (rw differ at h))
]

-- What `render` writes, if every placeholder names a parameter.
pub render-Rendered :
    (order : List Text) (ps : List Piece)
    → ((n : Text) → contains n (names_of ps) ≡ true → contains n order ≡ true)
    → Rendered order ps (render order ps)
unfolding render names_of
render-Rendered order [] h = refl
render-Rendered order (plain c ∷ ps) h = (render order ps, refl, render-Rendered order ps h)
render-Rendered order (named n ∷ ps) h = (
  index_of n order,
  render order ps,
  get_elem?-index_of n order (h n (ground (arith, text_eq.beq_iff n n))),
  refl,
  render-Rendered order ps (λ m there. h m (ground (arith, there))),
)
